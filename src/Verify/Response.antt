-- ===== src/Verify/Response.antt =====
-- `verify` of `Response` and its `toObject` without options, from internal/ipc/gen/ipc_generated.js.
pub mod Accepts
pub mod Kinds
use mathlib.Core.Option
use tilbo.Prelude.{ℕ, String, false, Option, [], ◌∷◌}
use tilbo.Values.{Value, object, Util, verify_record, verify_oneof}
use tilbo.Values.Slots.{props_of}
use tilbo.Values.Accepts.{given, sum}
use tilbo.Values.Oneof.{Members}
use tilbo.Ipc.Response.{Response}
use tilbo.Verify.Bare
use tilbo.Verify.CreateDirectoryResponse
use tilbo.Verify.CreateFileResponse
use tilbo.Verify.ErrorResponse
use tilbo.Verify.GetBrowserConfigResponse
use tilbo.Verify.GetFileActionsResponse
use tilbo.Verify.GetFileBadgesResponse
use tilbo.Verify.GetThumbnailResponse
use tilbo.Verify.GlobSearchResponse
use tilbo.Verify.HydrateTagsResponse
use tilbo.Verify.LaunchGuiResponse
use tilbo.Verify.ListAppsForFileResponse
use tilbo.Verify.ListDirectoryResponse
use tilbo.Verify.ListMountsResponse
use tilbo.Verify.ListPlacesResponse
use tilbo.Verify.ListSavedSearchesResponse
use tilbo.Verify.ListTagsResponse
use tilbo.Verify.ListTrashResponse
use tilbo.Verify.MetadataResponse
use tilbo.Verify.PasteResponse
use tilbo.Verify.PinSearchResponse
use tilbo.Verify.RelatedResponse
use tilbo.Verify.ReloadRulesResponse
use tilbo.Verify.RenameFileResponse
use tilbo.Verify.SearchResponse
use tilbo.Verify.StatFileResponse
use tilbo.Verify.StatusResponse
use tilbo.Verify.TagResponse

module _ (u : Util) where
  -- `toObject(message)`
  unfoldable pub to_object : Response → Value
  to_object m = object (
      props_of (
        ("error", Option.map (ErrorResponse.to_object u) m.error)
        ∷ ("search", Option.map (SearchResponse.to_object u) m.search)
        ∷ ("tag", Option.map (TagResponse.to_object u) m.tag)
        ∷ ("metadata", Option.map (MetadataResponse.to_object u) m.metadata)
        ∷ ("related", Option.map (RelatedResponse.to_object u) m.related)
        ∷ ("status", Option.map (StatusResponse.to_object u) m.status)
        ∷ ("reloadRules", Option.map (ReloadRulesResponse.to_object u) m.reload_rules)
        ∷ ("listTags", Option.map (ListTagsResponse.to_object u) m.list_tags)
        ∷ ("hydrateTags", Option.map (HydrateTagsResponse.to_object u) m.hydrate_tags)
        ∷ ("listDirectory", Option.map (ListDirectoryResponse.to_object u) m.list_directory)
        ∷ ("statFile", Option.map (StatFileResponse.to_object u) m.stat_file)
        ∷ ("globSearch", Option.map (GlobSearchResponse.to_object u) m.glob_search)
        ∷ ("renameFile", Option.map (RenameFileResponse.to_object u) m.rename_file)
        ∷ ("deleteFile", Option.map (Bare.to_object u) m.delete_file)
        ∷ ("chmodFile", Option.map (Bare.to_object u) m.chmod_file)
        ∷ ("listPlaces", Option.map (ListPlacesResponse.to_object u) m.list_places)
        ∷ ("pinPlace", Option.map (Bare.to_object u) m.pin_place)
        ∷ ("unpinPlace", Option.map (Bare.to_object u) m.unpin_place)
        ∷ ("trashFile", Option.map (Bare.to_object u) m.trash_file)
        ∷ ("listTrash", Option.map (ListTrashResponse.to_object u) m.list_trash)
        ∷ ("restoreTrash", Option.map (Bare.to_object u) m.restore_trash)
        ∷ ("emptyTrash", Option.map (Bare.to_object u) m.empty_trash)
        ∷ ("listAppsForFile", Option.map (ListAppsForFileResponse.to_object u) m.list_apps_for_file)
        ∷ ("openWithApp", Option.map (Bare.to_object u) m.open_with_app)
        ∷ (
          "getBrowserConfig",
          Option.map (GetBrowserConfigResponse.to_object u) m.get_browser_config,
        )
        ∷ ("getFileBadges", Option.map (GetFileBadgesResponse.to_object u) m.get_file_badges)
        ∷ ("getFileActions", Option.map (GetFileActionsResponse.to_object u) m.get_file_actions)
        ∷ ("runFileAction", Option.map (Bare.to_object u) m.run_file_action)
        ∷ ("launchGui", Option.map (LaunchGuiResponse.to_object u) m.launch_gui)
        ∷ ("getThumbnail", Option.map (GetThumbnailResponse.to_object u) m.get_thumbnail)
        ∷ ("copy", Option.map (Bare.to_object u) m.copy)
        ∷ ("paste", Option.map (PasteResponse.to_object u) m.paste)
        ∷ ("createFile", Option.map (CreateFileResponse.to_object u) m.create_file)
        ∷ ("createDirectory", Option.map (CreateDirectoryResponse.to_object u) m.create_directory)
        ∷ ("listMounts", Option.map (ListMountsResponse.to_object u) m.list_mounts)
        ∷ ("pinSearch", Option.map (PinSearchResponse.to_object u) m.pin_search)
        ∷ ("unpinSearch", Option.map (Bare.to_object u) m.unpin_search)
        ∷ (
          "listSavedSearches",
          Option.map (ListSavedSearchesResponse.to_object u) m.list_saved_searches,
        )
        ∷ ("shutdown", Option.map (Bare.to_object u) m.shutdown)
        ∷ ("reindexFile", Option.map (Bare.to_object u) m.reindex_file)
        ∷ []))

  -- The members of `kind`, in the order of `verify`.
  abbrev pub members : Members
  members =
      ("error", ErrorResponse.verify u)
      ∷ ("search", SearchResponse.verify u)
      ∷ ("listTags", ListTagsResponse.verify u)
      ∷ ("hydrateTags", HydrateTagsResponse.verify u)
      ∷ ("related", RelatedResponse.verify u)
      ∷ ("globSearch", GlobSearchResponse.verify u)
      ∷ ("tag", TagResponse.verify u)
      ∷ ("metadata", MetadataResponse.verify u)
      ∷ ("status", StatusResponse.verify u)
      ∷ ("reloadRules", ReloadRulesResponse.verify u)
      ∷ ("listDirectory", ListDirectoryResponse.verify u)
      ∷ ("statFile", StatFileResponse.verify u)
      ∷ ("renameFile", RenameFileResponse.verify u)
      ∷ ("deleteFile", Bare.verify u)
      ∷ ("chmodFile", Bare.verify u)
      ∷ ("copy", Bare.verify u)
      ∷ ("paste", PasteResponse.verify u)
      ∷ ("createFile", CreateFileResponse.verify u)
      ∷ ("createDirectory", CreateDirectoryResponse.verify u)
      ∷ ("listPlaces", ListPlacesResponse.verify u)
      ∷ ("pinPlace", Bare.verify u)
      ∷ ("unpinPlace", Bare.verify u)
      ∷ ("trashFile", Bare.verify u)
      ∷ ("listTrash", ListTrashResponse.verify u)
      ∷ ("restoreTrash", Bare.verify u)
      ∷ ("emptyTrash", Bare.verify u)
      ∷ ("listAppsForFile", ListAppsForFileResponse.verify u)
      ∷ ("openWithApp", Bare.verify u)
      ∷ ("getBrowserConfig", GetBrowserConfigResponse.verify u)
      ∷ ("launchGui", LaunchGuiResponse.verify u)
      ∷ ("getThumbnail", GetThumbnailResponse.verify u)
      ∷ ("listMounts", ListMountsResponse.verify u)
      ∷ ("getFileBadges", GetFileBadgesResponse.verify u)
      ∷ ("getFileActions", GetFileActionsResponse.verify u)
      ∷ ("runFileAction", Bare.verify u)
      ∷ ("pinSearch", PinSearchResponse.verify u)
      ∷ ("unpinSearch", Bare.verify u)
      ∷ ("listSavedSearches", ListSavedSearchesResponse.verify u)
      ∷ ("shutdown", Bare.verify u)
      ∷ ("reindexFile", Bare.verify u)
      ∷ []

  unfoldable pub verify : Value → Option String
  verify m = verify_record (verify_oneof "kind" members false m) m

abbrev pub count_kinds : Response → ℕ
count_kinds m = sum (
    given m.error
    ∷ given m.search
    ∷ given m.list_tags
    ∷ given m.hydrate_tags
    ∷ given m.related
    ∷ given m.glob_search
    ∷ given m.tag
    ∷ given m.metadata
    ∷ given m.status
    ∷ given m.reload_rules
    ∷ given m.list_directory
    ∷ given m.stat_file
    ∷ given m.rename_file
    ∷ given m.delete_file
    ∷ given m.chmod_file
    ∷ given m.copy
    ∷ given m.paste
    ∷ given m.create_file
    ∷ given m.create_directory
    ∷ given m.list_places
    ∷ given m.pin_place
    ∷ given m.unpin_place
    ∷ given m.trash_file
    ∷ given m.list_trash
    ∷ given m.restore_trash
    ∷ given m.empty_trash
    ∷ given m.list_apps_for_file
    ∷ given m.open_with_app
    ∷ given m.get_browser_config
    ∷ given m.launch_gui
    ∷ given m.get_thumbnail
    ∷ given m.list_mounts
    ∷ given m.get_file_badges
    ∷ given m.get_file_actions
    ∷ given m.run_file_action
    ∷ given m.pin_search
    ∷ given m.unpin_search
    ∷ given m.list_saved_searches
    ∷ given m.shutdown
    ∷ given m.reindex_file
    ∷ [])
