-- ===== src/Verify/Request.antt =====
-- `verify` of `Request` and its `toObject` without options, from internal/ipc/gen/ipc_generated.js.
pub mod Accepts
pub mod Kinds
use mathlib.Core.Option
use tilbo.Prelude.{ℕ, String, false, Option, [], ◌∷◌}
use tilbo.Values.{Value, object, Util, verify_record, verify_oneof}
use tilbo.Values.Slots.{props_of}
use tilbo.Values.Accepts.{given, sum}
use tilbo.Values.Oneof.{Members}
use tilbo.Ipc.Request.{Request}
use tilbo.Verify.Bare
use tilbo.Verify.ChmodFileRequest
use tilbo.Verify.CopyRequest
use tilbo.Verify.CreateDirectoryRequest
use tilbo.Verify.CreateFileRequest
use tilbo.Verify.DeleteFileRequest
use tilbo.Verify.GetFileActionsRequest
use tilbo.Verify.GetFileBadgesRequest
use tilbo.Verify.GetThumbnailRequest
use tilbo.Verify.GlobSearchRequest
use tilbo.Verify.HydrateTagsRequest
use tilbo.Verify.LaunchGuiRequest
use tilbo.Verify.ListAppsForFileRequest
use tilbo.Verify.ListDirectoryRequest
use tilbo.Verify.ListTagsRequest
use tilbo.Verify.MetadataRequest
use tilbo.Verify.MetadataSetRequest
use tilbo.Verify.OpenWithAppRequest
use tilbo.Verify.PasteRequest
use tilbo.Verify.PinPlaceRequest
use tilbo.Verify.PinSearchRequest
use tilbo.Verify.ReindexFileRequest
use tilbo.Verify.RelatedRequest
use tilbo.Verify.RenameFileRequest
use tilbo.Verify.RestoreTrashRequest
use tilbo.Verify.RunFileActionRequest
use tilbo.Verify.SearchRequest
use tilbo.Verify.StatFileRequest
use tilbo.Verify.TagRequest
use tilbo.Verify.TrashFileRequest
use tilbo.Verify.UnpinPlaceRequest
use tilbo.Verify.UnpinSearchRequest

module _ (u : Util) where
  -- `toObject(message)`
  unfoldable pub to_object : Request → Value
  to_object m = object (
      props_of (
        ("search", Option.map (SearchRequest.to_object u) m.search)
        ∷ ("tag", Option.map (TagRequest.to_object u) m.tag)
        ∷ ("metadata", Option.map (MetadataRequest.to_object u) m.metadata)
        ∷ ("metadataSet", Option.map (MetadataSetRequest.to_object u) m.metadata_set)
        ∷ ("related", Option.map (RelatedRequest.to_object u) m.related)
        ∷ ("status", Option.map (Bare.to_object u) m.status)
        ∷ ("reloadRules", Option.map (Bare.to_object u) m.reload_rules)
        ∷ ("listTags", Option.map (ListTagsRequest.to_object u) m.list_tags)
        ∷ ("hydrateTags", Option.map (HydrateTagsRequest.to_object u) m.hydrate_tags)
        ∷ ("listDirectory", Option.map (ListDirectoryRequest.to_object u) m.list_directory)
        ∷ ("statFile", Option.map (StatFileRequest.to_object u) m.stat_file)
        ∷ ("globSearch", Option.map (GlobSearchRequest.to_object u) m.glob_search)
        ∷ ("renameFile", Option.map (RenameFileRequest.to_object u) m.rename_file)
        ∷ ("deleteFile", Option.map (DeleteFileRequest.to_object u) m.delete_file)
        ∷ ("chmodFile", Option.map (ChmodFileRequest.to_object u) m.chmod_file)
        ∷ ("listPlaces", Option.map (Bare.to_object u) m.list_places)
        ∷ ("pinPlace", Option.map (PinPlaceRequest.to_object u) m.pin_place)
        ∷ ("unpinPlace", Option.map (UnpinPlaceRequest.to_object u) m.unpin_place)
        ∷ ("trashFile", Option.map (TrashFileRequest.to_object u) m.trash_file)
        ∷ ("listTrash", Option.map (Bare.to_object u) m.list_trash)
        ∷ ("restoreTrash", Option.map (RestoreTrashRequest.to_object u) m.restore_trash)
        ∷ ("emptyTrash", Option.map (Bare.to_object u) m.empty_trash)
        ∷ ("listAppsForFile", Option.map (ListAppsForFileRequest.to_object u) m.list_apps_for_file)
        ∷ ("openWithApp", Option.map (OpenWithAppRequest.to_object u) m.open_with_app)
        ∷ ("getBrowserConfig", Option.map (Bare.to_object u) m.get_browser_config)
        ∷ ("getFileBadges", Option.map (GetFileBadgesRequest.to_object u) m.get_file_badges)
        ∷ ("getFileActions", Option.map (GetFileActionsRequest.to_object u) m.get_file_actions)
        ∷ ("runFileAction", Option.map (RunFileActionRequest.to_object u) m.run_file_action)
        ∷ ("launchGui", Option.map (LaunchGuiRequest.to_object u) m.launch_gui)
        ∷ ("getThumbnail", Option.map (GetThumbnailRequest.to_object u) m.get_thumbnail)
        ∷ ("copy", Option.map (CopyRequest.to_object u) m.copy)
        ∷ ("paste", Option.map (PasteRequest.to_object u) m.paste)
        ∷ ("createFile", Option.map (CreateFileRequest.to_object u) m.create_file)
        ∷ ("createDirectory", Option.map (CreateDirectoryRequest.to_object u) m.create_directory)
        ∷ ("listMounts", Option.map (Bare.to_object u) m.list_mounts)
        ∷ ("pinSearch", Option.map (PinSearchRequest.to_object u) m.pin_search)
        ∷ ("unpinSearch", Option.map (UnpinSearchRequest.to_object u) m.unpin_search)
        ∷ ("listSavedSearches", Option.map (Bare.to_object u) m.list_saved_searches)
        ∷ ("shutdown", Option.map (Bare.to_object u) m.shutdown)
        ∷ ("reindexFile", Option.map (ReindexFileRequest.to_object u) m.reindex_file)
        ∷ []))

  -- The members of `kind`, in the order of `verify`.
  abbrev pub members : Members
  members =
      ("search", SearchRequest.verify u)
      ∷ ("listTags", ListTagsRequest.verify u)
      ∷ ("hydrateTags", HydrateTagsRequest.verify u)
      ∷ ("related", RelatedRequest.verify u)
      ∷ ("globSearch", GlobSearchRequest.verify u)
      ∷ ("tag", TagRequest.verify u)
      ∷ ("metadata", MetadataRequest.verify u)
      ∷ ("metadataSet", MetadataSetRequest.verify u)
      ∷ ("status", Bare.verify u)
      ∷ ("reloadRules", Bare.verify u)
      ∷ ("listDirectory", ListDirectoryRequest.verify u)
      ∷ ("statFile", StatFileRequest.verify u)
      ∷ ("renameFile", RenameFileRequest.verify u)
      ∷ ("deleteFile", DeleteFileRequest.verify u)
      ∷ ("chmodFile", ChmodFileRequest.verify u)
      ∷ ("copy", CopyRequest.verify u)
      ∷ ("paste", PasteRequest.verify u)
      ∷ ("createFile", CreateFileRequest.verify u)
      ∷ ("createDirectory", CreateDirectoryRequest.verify u)
      ∷ ("listPlaces", Bare.verify u)
      ∷ ("pinPlace", PinPlaceRequest.verify u)
      ∷ ("unpinPlace", UnpinPlaceRequest.verify u)
      ∷ ("trashFile", TrashFileRequest.verify u)
      ∷ ("listTrash", Bare.verify u)
      ∷ ("restoreTrash", RestoreTrashRequest.verify u)
      ∷ ("emptyTrash", Bare.verify u)
      ∷ ("listAppsForFile", ListAppsForFileRequest.verify u)
      ∷ ("openWithApp", OpenWithAppRequest.verify u)
      ∷ ("getBrowserConfig", Bare.verify u)
      ∷ ("launchGui", LaunchGuiRequest.verify u)
      ∷ ("getThumbnail", GetThumbnailRequest.verify u)
      ∷ ("listMounts", Bare.verify u)
      ∷ ("getFileBadges", GetFileBadgesRequest.verify u)
      ∷ ("getFileActions", GetFileActionsRequest.verify u)
      ∷ ("runFileAction", RunFileActionRequest.verify u)
      ∷ ("pinSearch", PinSearchRequest.verify u)
      ∷ ("unpinSearch", UnpinSearchRequest.verify u)
      ∷ ("listSavedSearches", Bare.verify u)
      ∷ ("shutdown", Bare.verify u)
      ∷ ("reindexFile", ReindexFileRequest.verify u)
      ∷ []

  unfoldable pub verify : Value → Option String
  verify m = verify_record (verify_oneof "kind" members false m) m

abbrev pub count_kinds : Request → ℕ
count_kinds m = sum (
    given m.search
    ∷ given m.list_tags
    ∷ given m.hydrate_tags
    ∷ given m.related
    ∷ given m.glob_search
    ∷ given m.tag
    ∷ given m.metadata
    ∷ given m.metadata_set
    ∷ given m.status
    ∷ given m.reload_rules
    ∷ given m.list_directory
    ∷ given m.stat_file
    ∷ given m.rename_file
    ∷ given m.delete_file
    ∷ given m.chmod_file
    ∷ given m.copy
    ∷ given m.paste
    ∷ given m.create_file
    ∷ given m.create_directory
    ∷ given m.list_places
    ∷ given m.pin_place
    ∷ given m.unpin_place
    ∷ given m.trash_file
    ∷ given m.list_trash
    ∷ given m.restore_trash
    ∷ given m.empty_trash
    ∷ given m.list_apps_for_file
    ∷ given m.open_with_app
    ∷ given m.get_browser_config
    ∷ given m.launch_gui
    ∷ given m.get_thumbnail
    ∷ given m.list_mounts
    ∷ given m.get_file_badges
    ∷ given m.get_file_actions
    ∷ given m.run_file_action
    ∷ given m.pin_search
    ∷ given m.unpin_search
    ∷ given m.list_saved_searches
    ∷ given m.shutdown
    ∷ given m.reindex_file
    ∷ [])
