-- ===== src/Ipc/Response/Decode.antt =====
-- `Response.decode` and `Response.decodeDelimited` of internal/ipc/gen/ipc_generated.js.
use tilbo.Prelude.{ℕ, ◌/◌, Option, some, ◌==◌, if◌then◌else◌}
use tilbo.Runtime.{Outcome, Parser, pure, Runtime, Source, ◌>>=◌}
use tilbo.Codec.{skip_field, decode_with, sub_message, wrap_source}
use tilbo.Ipc.Response.Message.{Response, empty}
use tilbo.Ipc.Bare
use tilbo.Ipc.CreateDirectoryResponse
use tilbo.Ipc.CreateFileResponse
use tilbo.Ipc.ErrorResponse
use tilbo.Ipc.GetBrowserConfigResponse
use tilbo.Ipc.GetFileActionsResponse
use tilbo.Ipc.GetFileBadgesResponse
use tilbo.Ipc.GetThumbnailResponse
use tilbo.Ipc.GlobSearchResponse
use tilbo.Ipc.HydrateTagsResponse
use tilbo.Ipc.LaunchGuiResponse
use tilbo.Ipc.ListAppsForFileResponse
use tilbo.Ipc.ListDirectoryResponse
use tilbo.Ipc.ListMountsResponse
use tilbo.Ipc.ListPlacesResponse
use tilbo.Ipc.ListSavedSearchesResponse
use tilbo.Ipc.ListTagsResponse
use tilbo.Ipc.ListTrashResponse
use tilbo.Ipc.MetadataResponse
use tilbo.Ipc.PasteResponse
use tilbo.Ipc.PinSearchResponse
use tilbo.Ipc.RelatedResponse
use tilbo.Ipc.ReloadRulesResponse
use tilbo.Ipc.RenameFileResponse
use tilbo.Ipc.SearchResponse
use tilbo.Ipc.StatFileResponse
use tilbo.Ipc.StatusResponse
use tilbo.Ipc.TagResponse

module _ (rt : Runtime) where
  open rt use {Byte, Reader}

  -- the switch of `decode`
  unfoldable pub decode_field : ℕ → Response → Parser Reader Response
  decode_field tag m =
      if tag / 8 == 1
      then (do v ← sub_message rt (ErrorResponse.decode rt); pure (record m { error = some v }))
      else if tag / 8 == 2
      then (do v ← sub_message rt (SearchResponse.decode rt); pure (record m { search = some v }))
      else if tag / 8 == 3
      then (do v ← sub_message rt (TagResponse.decode rt); pure (record m { tag = some v }))
      else if tag / 8 == 4
      then (do
        v ← sub_message rt (MetadataResponse.decode rt)
        pure (record m { metadata = some v }))
      else if tag / 8 == 5
      then (do v ← sub_message rt (RelatedResponse.decode rt); pure (record m { related = some v }))
      else if tag / 8 == 6
      then (do v ← sub_message rt (StatusResponse.decode rt); pure (record m { status = some v }))
      else if tag / 8 == 7
      then (do
        v ← sub_message rt (ReloadRulesResponse.decode rt)
        pure (record m { reload_rules = some v }))
      else if tag / 8 == 8
      then (do
        v ← sub_message rt (ListTagsResponse.decode rt)
        pure (record m { list_tags = some v }))
      else if tag / 8 == 9
      then (do
        v ← sub_message rt (HydrateTagsResponse.decode rt)
        pure (record m { hydrate_tags = some v }))
      else if tag / 8 == 10
      then (do
        v ← sub_message rt (ListDirectoryResponse.decode rt)
        pure (record m { list_directory = some v }))
      else if tag / 8 == 11
      then (do
        v ← sub_message rt (StatFileResponse.decode rt)
        pure (record m { stat_file = some v }))
      else if tag / 8 == 12
      then (do
        v ← sub_message rt (GlobSearchResponse.decode rt)
        pure (record m { glob_search = some v }))
      else if tag / 8 == 13
      then (do
        v ← sub_message rt (RenameFileResponse.decode rt)
        pure (record m { rename_file = some v }))
      else if tag / 8 == 14
      then (do v ← sub_message rt (Bare.decode rt); pure (record m { delete_file = some v }))
      else if tag / 8 == 15
      then (do v ← sub_message rt (Bare.decode rt); pure (record m { chmod_file = some v }))
      else if tag / 8 == 16
      then (do
        v ← sub_message rt (ListPlacesResponse.decode rt)
        pure (record m { list_places = some v }))
      else if tag / 8 == 17
      then (do v ← sub_message rt (Bare.decode rt); pure (record m { pin_place = some v }))
      else if tag / 8 == 18
      then (do v ← sub_message rt (Bare.decode rt); pure (record m { unpin_place = some v }))
      else if tag / 8 == 19
      then (do v ← sub_message rt (Bare.decode rt); pure (record m { trash_file = some v }))
      else if tag / 8 == 20
      then (do
        v ← sub_message rt (ListTrashResponse.decode rt)
        pure (record m { list_trash = some v }))
      else if tag / 8 == 21
      then (do v ← sub_message rt (Bare.decode rt); pure (record m { restore_trash = some v }))
      else if tag / 8 == 22
      then (do v ← sub_message rt (Bare.decode rt); pure (record m { empty_trash = some v }))
      else if tag / 8 == 23
      then (do
        v ← sub_message rt (ListAppsForFileResponse.decode rt)
        pure (record m { list_apps_for_file = some v }))
      else if tag / 8 == 24
      then (do v ← sub_message rt (Bare.decode rt); pure (record m { open_with_app = some v }))
      else if tag / 8 == 25
      then (do
        v ← sub_message rt (GetBrowserConfigResponse.decode rt)
        pure (record m { get_browser_config = some v }))
      else if tag / 8 == 26
      then (do
        v ← sub_message rt (GetFileBadgesResponse.decode rt)
        pure (record m { get_file_badges = some v }))
      else if tag / 8 == 27
      then (do
        v ← sub_message rt (GetFileActionsResponse.decode rt)
        pure (record m { get_file_actions = some v }))
      else if tag / 8 == 28
      then (do v ← sub_message rt (Bare.decode rt); pure (record m { run_file_action = some v }))
      else if tag / 8 == 29
      then (do
        v ← sub_message rt (LaunchGuiResponse.decode rt)
        pure (record m { launch_gui = some v }))
      else if tag / 8 == 30
      then (do
        v ← sub_message rt (GetThumbnailResponse.decode rt)
        pure (record m { get_thumbnail = some v }))
      else if tag / 8 == 31
      then (do v ← sub_message rt (Bare.decode rt); pure (record m { copy = some v }))
      else if tag / 8 == 32
      then (do v ← sub_message rt (PasteResponse.decode rt); pure (record m { paste = some v }))
      else if tag / 8 == 33
      then (do
        v ← sub_message rt (CreateFileResponse.decode rt)
        pure (record m { create_file = some v }))
      else if tag / 8 == 34
      then (do
        v ← sub_message rt (CreateDirectoryResponse.decode rt)
        pure (record m { create_directory = some v }))
      else if tag / 8 == 35
      then (do
        v ← sub_message rt (ListMountsResponse.decode rt)
        pure (record m { list_mounts = some v }))
      else if tag / 8 == 36
      then (do
        v ← sub_message rt (PinSearchResponse.decode rt)
        pure (record m { pin_search = some v }))
      else if tag / 8 == 37
      then (do v ← sub_message rt (Bare.decode rt); pure (record m { unpin_search = some v }))
      else if tag / 8 == 38
      then (do
        v ← sub_message rt (ListSavedSearchesResponse.decode rt)
        pure (record m { list_saved_searches = some v }))
      else if tag / 8 == 39
      then (do v ← sub_message rt (Bare.decode rt); pure (record m { shutdown = some v }))
      else if tag / 8 == 40
      then (do v ← sub_message rt (Bare.decode rt); pure (record m { reindex_file = some v }))
      else skip_field rt tag m

  abbrev pub decode : Source Reader Byte → Option ℕ → Option ℕ → Outcome (Response × Reader)
  decode = decode_with rt decode_field empty

  unfoldable pub decode_delimited : Source Reader Byte → Outcome (Response × Reader)
  decode_delimited source = sub_message rt decode (wrap_source rt source)
