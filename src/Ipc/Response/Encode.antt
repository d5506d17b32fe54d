-- ===== src/Ipc/Response/Encode.antt =====
-- `Response.encode` and `Response.encodeDelimited` of internal/ipc/gen/ipc_generated.js.
use tilbo.Prelude.{Option, some, ◌▸◌}
use tilbo.Runtime.{Runtime}
use tilbo.Codec.{own, or_create}
use tilbo.Ipc.Response.Message.{Response}
use tilbo.Ipc.Bare
use tilbo.Ipc.CreateDirectoryResponse
use tilbo.Ipc.CreateFileResponse
use tilbo.Ipc.ErrorResponse
use tilbo.Ipc.GetBrowserConfigResponse
use tilbo.Ipc.GetFileActionsResponse
use tilbo.Ipc.GetFileBadgesResponse
use tilbo.Ipc.GetThumbnailResponse
use tilbo.Ipc.GlobSearchResponse
use tilbo.Ipc.HydrateTagsResponse
use tilbo.Ipc.LaunchGuiResponse
use tilbo.Ipc.ListAppsForFileResponse
use tilbo.Ipc.ListDirectoryResponse
use tilbo.Ipc.ListMountsResponse
use tilbo.Ipc.ListPlacesResponse
use tilbo.Ipc.ListSavedSearchesResponse
use tilbo.Ipc.ListTagsResponse
use tilbo.Ipc.ListTrashResponse
use tilbo.Ipc.MetadataResponse
use tilbo.Ipc.PasteResponse
use tilbo.Ipc.PinSearchResponse
use tilbo.Ipc.RelatedResponse
use tilbo.Ipc.ReloadRulesResponse
use tilbo.Ipc.RenameFileResponse
use tilbo.Ipc.SearchResponse
use tilbo.Ipc.StatFileResponse
use tilbo.Ipc.StatusResponse
use tilbo.Ipc.TagResponse

module _ (rt : Runtime) where
  open rt use {Writer, uint32}

  unfoldable pub encode : Response → Option Writer → Writer
  encode m writer =
      or_create rt writer
      ▸ own (λ v w. ErrorResponse.encode rt v (some (w ▸ uint32 10 ▸ rt.fork)) ▸ rt.ldelim) m.error
      ▸ own (λ v w. SearchResponse.encode rt v (some (w ▸ uint32 18 ▸ rt.fork)) ▸ rt.ldelim)
          m.search
      ▸ own (λ v w. TagResponse.encode rt v (some (w ▸ uint32 26 ▸ rt.fork)) ▸ rt.ldelim) m.tag
      ▸ own (λ v w. MetadataResponse.encode rt v (some (w ▸ uint32 34 ▸ rt.fork)) ▸ rt.ldelim)
          m.metadata
      ▸ own (λ v w. RelatedResponse.encode rt v (some (w ▸ uint32 42 ▸ rt.fork)) ▸ rt.ldelim)
          m.related
      ▸ own (λ v w. StatusResponse.encode rt v (some (w ▸ uint32 50 ▸ rt.fork)) ▸ rt.ldelim)
          m.status
      ▸ own (λ v w. ReloadRulesResponse.encode rt v (some (w ▸ uint32 58 ▸ rt.fork)) ▸ rt.ldelim)
          m.reload_rules
      ▸ own (λ v w. ListTagsResponse.encode rt v (some (w ▸ uint32 66 ▸ rt.fork)) ▸ rt.ldelim)
          m.list_tags
      ▸ own (λ v w. HydrateTagsResponse.encode rt v (some (w ▸ uint32 74 ▸ rt.fork)) ▸ rt.ldelim)
          m.hydrate_tags
      ▸ own (λ v w. ListDirectoryResponse.encode rt v (some (w ▸ uint32 82 ▸ rt.fork)) ▸ rt.ldelim)
          m.list_directory
      ▸ own (λ v w. StatFileResponse.encode rt v (some (w ▸ uint32 90 ▸ rt.fork)) ▸ rt.ldelim)
          m.stat_file
      ▸ own (λ v w. GlobSearchResponse.encode rt v (some (w ▸ uint32 98 ▸ rt.fork)) ▸ rt.ldelim)
          m.glob_search
      ▸ own (λ v w. RenameFileResponse.encode rt v (some (w ▸ uint32 106 ▸ rt.fork)) ▸ rt.ldelim)
          m.rename_file
      ▸ own (λ v w. Bare.encode rt v (some (w ▸ uint32 114 ▸ rt.fork)) ▸ rt.ldelim) m.delete_file
      ▸ own (λ v w. Bare.encode rt v (some (w ▸ uint32 122 ▸ rt.fork)) ▸ rt.ldelim) m.chmod_file
      ▸ own (λ v w. ListPlacesResponse.encode rt v (some (w ▸ uint32 130 ▸ rt.fork)) ▸ rt.ldelim)
          m.list_places
      ▸ own (λ v w. Bare.encode rt v (some (w ▸ uint32 138 ▸ rt.fork)) ▸ rt.ldelim) m.pin_place
      ▸ own (λ v w. Bare.encode rt v (some (w ▸ uint32 146 ▸ rt.fork)) ▸ rt.ldelim) m.unpin_place
      ▸ own (λ v w. Bare.encode rt v (some (w ▸ uint32 154 ▸ rt.fork)) ▸ rt.ldelim) m.trash_file
      ▸ own (λ v w. ListTrashResponse.encode rt v (some (w ▸ uint32 162 ▸ rt.fork)) ▸ rt.ldelim)
          m.list_trash
      ▸ own (λ v w. Bare.encode rt v (some (w ▸ uint32 170 ▸ rt.fork)) ▸ rt.ldelim) m.restore_trash
      ▸ own (λ v w. Bare.encode rt v (some (w ▸ uint32 178 ▸ rt.fork)) ▸ rt.ldelim) m.empty_trash
      ▸ own
          (λ v w. ListAppsForFileResponse.encode rt v (some (w ▸ uint32 186 ▸ rt.fork)) ▸ rt.ldelim)
          m.list_apps_for_file
      ▸ own (λ v w. Bare.encode rt v (some (w ▸ uint32 194 ▸ rt.fork)) ▸ rt.ldelim) m.open_with_app
      ▸ own
          (λ v w.
            GetBrowserConfigResponse.encode rt v (some (w ▸ uint32 202 ▸ rt.fork)) ▸ rt.ldelim)
          m.get_browser_config
      ▸ own (λ v w. GetFileBadgesResponse.encode rt v (some (w ▸ uint32 210 ▸ rt.fork)) ▸ rt.ldelim)
          m.get_file_badges
      ▸ own
          (λ v w. GetFileActionsResponse.encode rt v (some (w ▸ uint32 218 ▸ rt.fork)) ▸ rt.ldelim)
          m.get_file_actions
      ▸ own (λ v w. Bare.encode rt v (some (w ▸ uint32 226 ▸ rt.fork)) ▸ rt.ldelim)
          m.run_file_action
      ▸ own (λ v w. LaunchGuiResponse.encode rt v (some (w ▸ uint32 234 ▸ rt.fork)) ▸ rt.ldelim)
          m.launch_gui
      ▸ own (λ v w. GetThumbnailResponse.encode rt v (some (w ▸ uint32 242 ▸ rt.fork)) ▸ rt.ldelim)
          m.get_thumbnail
      ▸ own (λ v w. Bare.encode rt v (some (w ▸ uint32 250 ▸ rt.fork)) ▸ rt.ldelim) m.copy
      ▸ own (λ v w. PasteResponse.encode rt v (some (w ▸ uint32 258 ▸ rt.fork)) ▸ rt.ldelim) m.paste
      ▸ own (λ v w. CreateFileResponse.encode rt v (some (w ▸ uint32 266 ▸ rt.fork)) ▸ rt.ldelim)
          m.create_file
      ▸ own
          (λ v w. CreateDirectoryResponse.encode rt v (some (w ▸ uint32 274 ▸ rt.fork)) ▸ rt.ldelim)
          m.create_directory
      ▸ own (λ v w. ListMountsResponse.encode rt v (some (w ▸ uint32 282 ▸ rt.fork)) ▸ rt.ldelim)
          m.list_mounts
      ▸ own (λ v w. PinSearchResponse.encode rt v (some (w ▸ uint32 290 ▸ rt.fork)) ▸ rt.ldelim)
          m.pin_search
      ▸ own (λ v w. Bare.encode rt v (some (w ▸ uint32 298 ▸ rt.fork)) ▸ rt.ldelim) m.unpin_search
      ▸ own
          (λ v w.
            ListSavedSearchesResponse.encode rt v (some (w ▸ uint32 306 ▸ rt.fork)) ▸ rt.ldelim)
          m.list_saved_searches
      ▸ own (λ v w. Bare.encode rt v (some (w ▸ uint32 314 ▸ rt.fork)) ▸ rt.ldelim) m.shutdown
      ▸ own (λ v w. Bare.encode rt v (some (w ▸ uint32 322 ▸ rt.fork)) ▸ rt.ldelim) m.reindex_file

  unfoldable pub encode_delimited : Response → Option Writer → Writer
  encode_delimited m writer = encode m writer ▸ rt.ldelim
