-- ===== src/Ipc/Request/Decode.antt =====
-- `Request.decode` and `Request.decodeDelimited` of internal/ipc/gen/ipc_generated.js.
use tilbo.Prelude.{ℕ, ◌/◌, Option, some, ◌==◌, if◌then◌else◌}
use tilbo.Runtime.{Outcome, Parser, pure, Runtime, Source, ◌>>=◌}
use tilbo.Codec.{skip_field, decode_with, sub_message, wrap_source}
use tilbo.Ipc.Request.Message.{Request, empty}
use tilbo.Ipc.Bare
use tilbo.Ipc.ChmodFileRequest
use tilbo.Ipc.CopyRequest
use tilbo.Ipc.CreateDirectoryRequest
use tilbo.Ipc.CreateFileRequest
use tilbo.Ipc.DeleteFileRequest
use tilbo.Ipc.GetFileActionsRequest
use tilbo.Ipc.GetFileBadgesRequest
use tilbo.Ipc.GetThumbnailRequest
use tilbo.Ipc.GlobSearchRequest
use tilbo.Ipc.HydrateTagsRequest
use tilbo.Ipc.LaunchGuiRequest
use tilbo.Ipc.ListAppsForFileRequest
use tilbo.Ipc.ListDirectoryRequest
use tilbo.Ipc.ListTagsRequest
use tilbo.Ipc.MetadataRequest
use tilbo.Ipc.MetadataSetRequest
use tilbo.Ipc.OpenWithAppRequest
use tilbo.Ipc.PasteRequest
use tilbo.Ipc.PinPlaceRequest
use tilbo.Ipc.PinSearchRequest
use tilbo.Ipc.ReindexFileRequest
use tilbo.Ipc.RelatedRequest
use tilbo.Ipc.RenameFileRequest
use tilbo.Ipc.RestoreTrashRequest
use tilbo.Ipc.RunFileActionRequest
use tilbo.Ipc.SearchRequest
use tilbo.Ipc.StatFileRequest
use tilbo.Ipc.TagRequest
use tilbo.Ipc.TrashFileRequest
use tilbo.Ipc.UnpinPlaceRequest
use tilbo.Ipc.UnpinSearchRequest

module _ (rt : Runtime) where
  open rt use {Byte, Reader}

  -- the switch of `decode`
  unfoldable pub decode_field : ℕ → Request → Parser Reader Request
  decode_field tag m =
      if tag / 8 == 1
      then (do v ← sub_message rt (SearchRequest.decode rt); pure (record m { search = some v }))
      else if tag / 8 == 2
      then (do v ← sub_message rt (TagRequest.decode rt); pure (record m { tag = some v }))
      else if tag / 8 == 3
      then (do
        v ← sub_message rt (MetadataRequest.decode rt)
        pure (record m { metadata = some v }))
      else if tag / 8 == 4
      then (do
        v ← sub_message rt (MetadataSetRequest.decode rt)
        pure (record m { metadata_set = some v }))
      else if tag / 8 == 5
      then (do v ← sub_message rt (RelatedRequest.decode rt); pure (record m { related = some v }))
      else if tag / 8 == 6
      then (do v ← sub_message rt (Bare.decode rt); pure (record m { status = some v }))
      else if tag / 8 == 7
      then (do v ← sub_message rt (Bare.decode rt); pure (record m { reload_rules = some v }))
      else if tag / 8 == 8
      then (do
        v ← sub_message rt (ListTagsRequest.decode rt)
        pure (record m { list_tags = some v }))
      else if tag / 8 == 9
      then (do
        v ← sub_message rt (HydrateTagsRequest.decode rt)
        pure (record m { hydrate_tags = some v }))
      else if tag / 8 == 10
      then (do
        v ← sub_message rt (ListDirectoryRequest.decode rt)
        pure (record m { list_directory = some v }))
      else if tag / 8 == 11
      then (do
        v ← sub_message rt (StatFileRequest.decode rt)
        pure (record m { stat_file = some v }))
      else if tag / 8 == 12
      then (do
        v ← sub_message rt (GlobSearchRequest.decode rt)
        pure (record m { glob_search = some v }))
      else if tag / 8 == 13
      then (do
        v ← sub_message rt (RenameFileRequest.decode rt)
        pure (record m { rename_file = some v }))
      else if tag / 8 == 14
      then (do
        v ← sub_message rt (DeleteFileRequest.decode rt)
        pure (record m { delete_file = some v }))
      else if tag / 8 == 15
      then (do
        v ← sub_message rt (ChmodFileRequest.decode rt)
        pure (record m { chmod_file = some v }))
      else if tag / 8 == 16
      then (do v ← sub_message rt (Bare.decode rt); pure (record m { list_places = some v }))
      else if tag / 8 == 17
      then (do
        v ← sub_message rt (PinPlaceRequest.decode rt)
        pure (record m { pin_place = some v }))
      else if tag / 8 == 18
      then (do
        v ← sub_message rt (UnpinPlaceRequest.decode rt)
        pure (record m { unpin_place = some v }))
      else if tag / 8 == 19
      then (do
        v ← sub_message rt (TrashFileRequest.decode rt)
        pure (record m { trash_file = some v }))
      else if tag / 8 == 20
      then (do v ← sub_message rt (Bare.decode rt); pure (record m { list_trash = some v }))
      else if tag / 8 == 21
      then (do
        v ← sub_message rt (RestoreTrashRequest.decode rt)
        pure (record m { restore_trash = some v }))
      else if tag / 8 == 22
      then (do v ← sub_message rt (Bare.decode rt); pure (record m { empty_trash = some v }))
      else if tag / 8 == 23
      then (do
        v ← sub_message rt (ListAppsForFileRequest.decode rt)
        pure (record m { list_apps_for_file = some v }))
      else if tag / 8 == 24
      then (do
        v ← sub_message rt (OpenWithAppRequest.decode rt)
        pure (record m { open_with_app = some v }))
      else if tag / 8 == 25
      then (do v ← sub_message rt (Bare.decode rt); pure (record m { get_browser_config = some v }))
      else if tag / 8 == 26
      then (do
        v ← sub_message rt (GetFileBadgesRequest.decode rt)
        pure (record m { get_file_badges = some v }))
      else if tag / 8 == 27
      then (do
        v ← sub_message rt (GetFileActionsRequest.decode rt)
        pure (record m { get_file_actions = some v }))
      else if tag / 8 == 28
      then (do
        v ← sub_message rt (RunFileActionRequest.decode rt)
        pure (record m { run_file_action = some v }))
      else if tag / 8 == 29
      then (do
        v ← sub_message rt (LaunchGuiRequest.decode rt)
        pure (record m { launch_gui = some v }))
      else if tag / 8 == 30
      then (do
        v ← sub_message rt (GetThumbnailRequest.decode rt)
        pure (record m { get_thumbnail = some v }))
      else if tag / 8 == 31
      then (do v ← sub_message rt (CopyRequest.decode rt); pure (record m { copy = some v }))
      else if tag / 8 == 32
      then (do v ← sub_message rt (PasteRequest.decode rt); pure (record m { paste = some v }))
      else if tag / 8 == 33
      then (do
        v ← sub_message rt (CreateFileRequest.decode rt)
        pure (record m { create_file = some v }))
      else if tag / 8 == 34
      then (do
        v ← sub_message rt (CreateDirectoryRequest.decode rt)
        pure (record m { create_directory = some v }))
      else if tag / 8 == 35
      then (do v ← sub_message rt (Bare.decode rt); pure (record m { list_mounts = some v }))
      else if tag / 8 == 36
      then (do
        v ← sub_message rt (PinSearchRequest.decode rt)
        pure (record m { pin_search = some v }))
      else if tag / 8 == 37
      then (do
        v ← sub_message rt (UnpinSearchRequest.decode rt)
        pure (record m { unpin_search = some v }))
      else if tag / 8 == 38
      then (do
        v ← sub_message rt (Bare.decode rt)
        pure (record m { list_saved_searches = some v }))
      else if tag / 8 == 39
      then (do v ← sub_message rt (Bare.decode rt); pure (record m { shutdown = some v }))
      else if tag / 8 == 40
      then (do
        v ← sub_message rt (ReindexFileRequest.decode rt)
        pure (record m { reindex_file = some v }))
      else skip_field rt tag m

  abbrev pub decode : Source Reader Byte → Option ℕ → Option ℕ → Outcome (Request × Reader)
  decode = decode_with rt decode_field empty

  unfoldable pub decode_delimited : Source Reader Byte → Outcome (Request × Reader)
  decode_delimited source = sub_message rt decode (wrap_source rt source)
