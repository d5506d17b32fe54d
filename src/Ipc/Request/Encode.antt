-- ===== src/Ipc/Request/Encode.antt =====
-- `Request.encode` and `Request.encodeDelimited` of internal/ipc/gen/ipc_generated.js.
use tilbo.Prelude.{Option, some, ◌▸◌}
use tilbo.Runtime.{Runtime}
use tilbo.Codec.{own, or_create}
use tilbo.Ipc.Request.Message.{Request}
use tilbo.Ipc.Bare
use tilbo.Ipc.ChmodFileRequest
use tilbo.Ipc.CopyRequest
use tilbo.Ipc.CreateDirectoryRequest
use tilbo.Ipc.CreateFileRequest
use tilbo.Ipc.DeleteFileRequest
use tilbo.Ipc.GetFileActionsRequest
use tilbo.Ipc.GetFileBadgesRequest
use tilbo.Ipc.GetThumbnailRequest
use tilbo.Ipc.GlobSearchRequest
use tilbo.Ipc.HydrateTagsRequest
use tilbo.Ipc.LaunchGuiRequest
use tilbo.Ipc.ListAppsForFileRequest
use tilbo.Ipc.ListDirectoryRequest
use tilbo.Ipc.ListTagsRequest
use tilbo.Ipc.MetadataRequest
use tilbo.Ipc.MetadataSetRequest
use tilbo.Ipc.OpenWithAppRequest
use tilbo.Ipc.PasteRequest
use tilbo.Ipc.PinPlaceRequest
use tilbo.Ipc.PinSearchRequest
use tilbo.Ipc.ReindexFileRequest
use tilbo.Ipc.RelatedRequest
use tilbo.Ipc.RenameFileRequest
use tilbo.Ipc.RestoreTrashRequest
use tilbo.Ipc.RunFileActionRequest
use tilbo.Ipc.SearchRequest
use tilbo.Ipc.StatFileRequest
use tilbo.Ipc.TagRequest
use tilbo.Ipc.TrashFileRequest
use tilbo.Ipc.UnpinPlaceRequest
use tilbo.Ipc.UnpinSearchRequest

module _ (rt : Runtime) where
  open rt use {Writer, uint32}

  unfoldable pub encode : Request → Option Writer → Writer
  encode m writer =
      or_create rt writer
      ▸ own (λ v w. SearchRequest.encode rt v (some (w ▸ uint32 10 ▸ rt.fork)) ▸ rt.ldelim) m.search
      ▸ own (λ v w. TagRequest.encode rt v (some (w ▸ uint32 18 ▸ rt.fork)) ▸ rt.ldelim) m.tag
      ▸ own (λ v w. MetadataRequest.encode rt v (some (w ▸ uint32 26 ▸ rt.fork)) ▸ rt.ldelim)
          m.metadata
      ▸ own (λ v w. MetadataSetRequest.encode rt v (some (w ▸ uint32 34 ▸ rt.fork)) ▸ rt.ldelim)
          m.metadata_set
      ▸ own (λ v w. RelatedRequest.encode rt v (some (w ▸ uint32 42 ▸ rt.fork)) ▸ rt.ldelim)
          m.related
      ▸ own (λ v w. Bare.encode rt v (some (w ▸ uint32 50 ▸ rt.fork)) ▸ rt.ldelim) m.status
      ▸ own (λ v w. Bare.encode rt v (some (w ▸ uint32 58 ▸ rt.fork)) ▸ rt.ldelim) m.reload_rules
      ▸ own (λ v w. ListTagsRequest.encode rt v (some (w ▸ uint32 66 ▸ rt.fork)) ▸ rt.ldelim)
          m.list_tags
      ▸ own (λ v w. HydrateTagsRequest.encode rt v (some (w ▸ uint32 74 ▸ rt.fork)) ▸ rt.ldelim)
          m.hydrate_tags
      ▸ own (λ v w. ListDirectoryRequest.encode rt v (some (w ▸ uint32 82 ▸ rt.fork)) ▸ rt.ldelim)
          m.list_directory
      ▸ own (λ v w. StatFileRequest.encode rt v (some (w ▸ uint32 90 ▸ rt.fork)) ▸ rt.ldelim)
          m.stat_file
      ▸ own (λ v w. GlobSearchRequest.encode rt v (some (w ▸ uint32 98 ▸ rt.fork)) ▸ rt.ldelim)
          m.glob_search
      ▸ own (λ v w. RenameFileRequest.encode rt v (some (w ▸ uint32 106 ▸ rt.fork)) ▸ rt.ldelim)
          m.rename_file
      ▸ own (λ v w. DeleteFileRequest.encode rt v (some (w ▸ uint32 114 ▸ rt.fork)) ▸ rt.ldelim)
          m.delete_file
      ▸ own (λ v w. ChmodFileRequest.encode rt v (some (w ▸ uint32 122 ▸ rt.fork)) ▸ rt.ldelim)
          m.chmod_file
      ▸ own (λ v w. Bare.encode rt v (some (w ▸ uint32 130 ▸ rt.fork)) ▸ rt.ldelim) m.list_places
      ▸ own (λ v w. PinPlaceRequest.encode rt v (some (w ▸ uint32 138 ▸ rt.fork)) ▸ rt.ldelim)
          m.pin_place
      ▸ own (λ v w. UnpinPlaceRequest.encode rt v (some (w ▸ uint32 146 ▸ rt.fork)) ▸ rt.ldelim)
          m.unpin_place
      ▸ own (λ v w. TrashFileRequest.encode rt v (some (w ▸ uint32 154 ▸ rt.fork)) ▸ rt.ldelim)
          m.trash_file
      ▸ own (λ v w. Bare.encode rt v (some (w ▸ uint32 162 ▸ rt.fork)) ▸ rt.ldelim) m.list_trash
      ▸ own (λ v w. RestoreTrashRequest.encode rt v (some (w ▸ uint32 170 ▸ rt.fork)) ▸ rt.ldelim)
          m.restore_trash
      ▸ own (λ v w. Bare.encode rt v (some (w ▸ uint32 178 ▸ rt.fork)) ▸ rt.ldelim) m.empty_trash
      ▸ own
          (λ v w. ListAppsForFileRequest.encode rt v (some (w ▸ uint32 186 ▸ rt.fork)) ▸ rt.ldelim)
          m.list_apps_for_file
      ▸ own (λ v w. OpenWithAppRequest.encode rt v (some (w ▸ uint32 194 ▸ rt.fork)) ▸ rt.ldelim)
          m.open_with_app
      ▸ own (λ v w. Bare.encode rt v (some (w ▸ uint32 202 ▸ rt.fork)) ▸ rt.ldelim)
          m.get_browser_config
      ▸ own (λ v w. GetFileBadgesRequest.encode rt v (some (w ▸ uint32 210 ▸ rt.fork)) ▸ rt.ldelim)
          m.get_file_badges
      ▸ own (λ v w. GetFileActionsRequest.encode rt v (some (w ▸ uint32 218 ▸ rt.fork)) ▸ rt.ldelim)
          m.get_file_actions
      ▸ own (λ v w. RunFileActionRequest.encode rt v (some (w ▸ uint32 226 ▸ rt.fork)) ▸ rt.ldelim)
          m.run_file_action
      ▸ own (λ v w. LaunchGuiRequest.encode rt v (some (w ▸ uint32 234 ▸ rt.fork)) ▸ rt.ldelim)
          m.launch_gui
      ▸ own (λ v w. GetThumbnailRequest.encode rt v (some (w ▸ uint32 242 ▸ rt.fork)) ▸ rt.ldelim)
          m.get_thumbnail
      ▸ own (λ v w. CopyRequest.encode rt v (some (w ▸ uint32 250 ▸ rt.fork)) ▸ rt.ldelim) m.copy
      ▸ own (λ v w. PasteRequest.encode rt v (some (w ▸ uint32 258 ▸ rt.fork)) ▸ rt.ldelim) m.paste
      ▸ own (λ v w. CreateFileRequest.encode rt v (some (w ▸ uint32 266 ▸ rt.fork)) ▸ rt.ldelim)
          m.create_file
      ▸ own
          (λ v w. CreateDirectoryRequest.encode rt v (some (w ▸ uint32 274 ▸ rt.fork)) ▸ rt.ldelim)
          m.create_directory
      ▸ own (λ v w. Bare.encode rt v (some (w ▸ uint32 282 ▸ rt.fork)) ▸ rt.ldelim) m.list_mounts
      ▸ own (λ v w. PinSearchRequest.encode rt v (some (w ▸ uint32 290 ▸ rt.fork)) ▸ rt.ldelim)
          m.pin_search
      ▸ own (λ v w. UnpinSearchRequest.encode rt v (some (w ▸ uint32 298 ▸ rt.fork)) ▸ rt.ldelim)
          m.unpin_search
      ▸ own (λ v w. Bare.encode rt v (some (w ▸ uint32 306 ▸ rt.fork)) ▸ rt.ldelim)
          m.list_saved_searches
      ▸ own (λ v w. Bare.encode rt v (some (w ▸ uint32 314 ▸ rt.fork)) ▸ rt.ldelim) m.shutdown
      ▸ own (λ v w. ReindexFileRequest.encode rt v (some (w ▸ uint32 322 ▸ rt.fork)) ▸ rt.ldelim)
          m.reindex_file

  unfoldable pub encode_delimited : Request → Option Writer → Writer
  encode_delimited m writer = encode m writer ▸ rt.ldelim
