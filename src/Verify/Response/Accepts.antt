-- ===== src/Verify/Response/Accepts.antt =====
-- What `verify` of `Response` accepts.
use tilbo.Prelude.{◌≡◌, ◌≤◌, refl, none, arith, Given}
use tilbo.Values.{Util, Documented}
use tilbo.Values.Accepts.{◌⊕◌, ◌&◌, given-map, nothing, record-accepts}
use tilbo.Values.Oneof.{oneof-accepts_slots}
use tilbo.Values.Fields.{Given-always, accepts-message}
use tilbo.Ipc.Response.{Response}
use tilbo.Codec.Scalars.{Given-map}
use tilbo.Verify.Bare
use tilbo.Verify.CreateDirectoryResponse
use tilbo.Verify.CreateFileResponse
use tilbo.Verify.ErrorResponse
use tilbo.Verify.GetBrowserConfigResponse
use tilbo.Verify.GetFileActionsResponse
use tilbo.Verify.GetFileBadgesResponse
use tilbo.Verify.GetThumbnailResponse
use tilbo.Verify.GlobSearchResponse
use tilbo.Verify.HydrateTagsResponse
use tilbo.Verify.LaunchGuiResponse
use tilbo.Verify.ListAppsForFileResponse
use tilbo.Verify.ListDirectoryResponse
use tilbo.Verify.ListMountsResponse
use tilbo.Verify.ListPlacesResponse
use tilbo.Verify.ListSavedSearchesResponse
use tilbo.Verify.ListTagsResponse
use tilbo.Verify.ListTrashResponse
use tilbo.Verify.MetadataResponse
use tilbo.Verify.PasteResponse
use tilbo.Verify.PinSearchResponse
use tilbo.Verify.RelatedResponse
use tilbo.Verify.ReloadRulesResponse
use tilbo.Verify.RenameFileResponse
use tilbo.Verify.SearchResponse
use tilbo.Verify.StatFileResponse
use tilbo.Verify.StatusResponse
use tilbo.Verify.TagResponse
use tilbo.Verify.Response.{members, count_kinds, to_object, verify}

-- One member of the oneof is set at most, and the nested messages are as regular.
pub record IsRegular (m : Response) : Type 0 where
  pub one : count_kinds m ≤ 1
  pub status : Given StatusResponse.IsRegular m.status

module _ (u : Util) (laws : Documented u) where
  -- `verify` accepts what `toObject` makes of a regular message.
  pub verify-accepts : (m : Response) → IsRegular m → verify u (to_object u m) ≡ none
  unfolding verify to_object
  verify-accepts m r = record-accepts _ (
      oneof-accepts_slots _ refl "kind" (members u)
        (accepts-message (ErrorResponse.to_object u) (ErrorResponse.verify u) "error" m.error
            (Given-always (ErrorResponse.verify-accepts u laws) m.error)
          & accepts-message (SearchResponse.to_object u) (SearchResponse.verify u) "search" m.search
              (Given-always (SearchResponse.verify-accepts u laws) m.search)
          & accepts-message (ListTagsResponse.to_object u) (ListTagsResponse.verify u) "listTags"
              m.list_tags (Given-always (ListTagsResponse.verify-accepts u laws) m.list_tags)
          & accepts-message (HydrateTagsResponse.to_object u) (HydrateTagsResponse.verify u)
              "hydrateTags" m.hydrate_tags
              (Given-always (HydrateTagsResponse.verify-accepts u laws) m.hydrate_tags)
          & accepts-message (RelatedResponse.to_object u) (RelatedResponse.verify u) "related"
              m.related (Given-always (RelatedResponse.verify-accepts u laws) m.related)
          & accepts-message (GlobSearchResponse.to_object u) (GlobSearchResponse.verify u)
              "globSearch" m.glob_search
              (Given-always (GlobSearchResponse.verify-accepts u laws) m.glob_search)
          & accepts-message (TagResponse.to_object u) (TagResponse.verify u) "tag" m.tag
              (Given-always (TagResponse.verify-accepts u laws) m.tag)
          & accepts-message (MetadataResponse.to_object u) (MetadataResponse.verify u) "metadata"
              m.metadata (Given-always (MetadataResponse.verify-accepts u laws) m.metadata)
          & accepts-message (StatusResponse.to_object u) (StatusResponse.verify u) "status" m.status
              (Given-map (StatusResponse.verify-accepts u laws) m.status r.status)
          & accepts-message (ReloadRulesResponse.to_object u) (ReloadRulesResponse.verify u)
              "reloadRules" m.reload_rules
              (Given-always (ReloadRulesResponse.verify-accepts u laws) m.reload_rules)
          & accepts-message (ListDirectoryResponse.to_object u) (ListDirectoryResponse.verify u)
              "listDirectory" m.list_directory
              (Given-always (ListDirectoryResponse.verify-accepts u laws) m.list_directory)
          & accepts-message (StatFileResponse.to_object u) (StatFileResponse.verify u) "statFile"
              m.stat_file (Given-always (StatFileResponse.verify-accepts u laws) m.stat_file)
          & accepts-message (RenameFileResponse.to_object u) (RenameFileResponse.verify u)
              "renameFile" m.rename_file
              (Given-always (RenameFileResponse.verify-accepts u laws) m.rename_file)
          & accepts-message (Bare.to_object u) (Bare.verify u) "deleteFile" m.delete_file
              (Given-always (Bare.verify-accepts u laws) m.delete_file)
          & accepts-message (Bare.to_object u) (Bare.verify u) "chmodFile" m.chmod_file
              (Given-always (Bare.verify-accepts u laws) m.chmod_file)
          & accepts-message (Bare.to_object u) (Bare.verify u) "copy" m.copy
              (Given-always (Bare.verify-accepts u laws) m.copy)
          & accepts-message (PasteResponse.to_object u) (PasteResponse.verify u) "paste" m.paste
              (Given-always (PasteResponse.verify-accepts u laws) m.paste)
          & accepts-message (CreateFileResponse.to_object u) (CreateFileResponse.verify u)
              "createFile" m.create_file
              (Given-always (CreateFileResponse.verify-accepts u laws) m.create_file)
          & accepts-message (CreateDirectoryResponse.to_object u) (CreateDirectoryResponse.verify u)
              "createDirectory" m.create_directory
              (Given-always (CreateDirectoryResponse.verify-accepts u laws) m.create_directory)
          & accepts-message (ListPlacesResponse.to_object u) (ListPlacesResponse.verify u)
              "listPlaces" m.list_places
              (Given-always (ListPlacesResponse.verify-accepts u laws) m.list_places)
          & accepts-message (Bare.to_object u) (Bare.verify u) "pinPlace" m.pin_place
              (Given-always (Bare.verify-accepts u laws) m.pin_place)
          & accepts-message (Bare.to_object u) (Bare.verify u) "unpinPlace" m.unpin_place
              (Given-always (Bare.verify-accepts u laws) m.unpin_place)
          & accepts-message (Bare.to_object u) (Bare.verify u) "trashFile" m.trash_file
              (Given-always (Bare.verify-accepts u laws) m.trash_file)
          & accepts-message (ListTrashResponse.to_object u) (ListTrashResponse.verify u) "listTrash"
              m.list_trash (Given-always (ListTrashResponse.verify-accepts u laws) m.list_trash)
          & accepts-message (Bare.to_object u) (Bare.verify u) "restoreTrash" m.restore_trash
              (Given-always (Bare.verify-accepts u laws) m.restore_trash)
          & accepts-message (Bare.to_object u) (Bare.verify u) "emptyTrash" m.empty_trash
              (Given-always (Bare.verify-accepts u laws) m.empty_trash)
          & accepts-message (ListAppsForFileResponse.to_object u) (ListAppsForFileResponse.verify u)
              "listAppsForFile" m.list_apps_for_file
              (Given-always (ListAppsForFileResponse.verify-accepts u laws) m.list_apps_for_file)
          & accepts-message (Bare.to_object u) (Bare.verify u) "openWithApp" m.open_with_app
              (Given-always (Bare.verify-accepts u laws) m.open_with_app)
          & accepts-message (GetBrowserConfigResponse.to_object u)
              (GetBrowserConfigResponse.verify u) "getBrowserConfig" m.get_browser_config
              (Given-always (GetBrowserConfigResponse.verify-accepts u laws) m.get_browser_config)
          & accepts-message (LaunchGuiResponse.to_object u) (LaunchGuiResponse.verify u) "launchGui"
              m.launch_gui (Given-always (LaunchGuiResponse.verify-accepts u laws) m.launch_gui)
          & accepts-message (GetThumbnailResponse.to_object u) (GetThumbnailResponse.verify u)
              "getThumbnail" m.get_thumbnail
              (Given-always (GetThumbnailResponse.verify-accepts u laws) m.get_thumbnail)
          & accepts-message (ListMountsResponse.to_object u) (ListMountsResponse.verify u)
              "listMounts" m.list_mounts
              (Given-always (ListMountsResponse.verify-accepts u laws) m.list_mounts)
          & accepts-message (GetFileBadgesResponse.to_object u) (GetFileBadgesResponse.verify u)
              "getFileBadges" m.get_file_badges
              (Given-always (GetFileBadgesResponse.verify-accepts u laws) m.get_file_badges)
          & accepts-message (GetFileActionsResponse.to_object u) (GetFileActionsResponse.verify u)
              "getFileActions" m.get_file_actions
              (Given-always (GetFileActionsResponse.verify-accepts u laws) m.get_file_actions)
          & accepts-message (Bare.to_object u) (Bare.verify u) "runFileAction" m.run_file_action
              (Given-always (Bare.verify-accepts u laws) m.run_file_action)
          & accepts-message (PinSearchResponse.to_object u) (PinSearchResponse.verify u) "pinSearch"
              m.pin_search (Given-always (PinSearchResponse.verify-accepts u laws) m.pin_search)
          & accepts-message (Bare.to_object u) (Bare.verify u) "unpinSearch" m.unpin_search
              (Given-always (Bare.verify-accepts u laws) m.unpin_search)
          & accepts-message (ListSavedSearchesResponse.to_object u)
              (ListSavedSearchesResponse.verify u) "listSavedSearches" m.list_saved_searches
              (Given-always (ListSavedSearchesResponse.verify-accepts u laws) m.list_saved_searches)
          & accepts-message (Bare.to_object u) (Bare.verify u) "shutdown" m.shutdown
              (Given-always (Bare.verify-accepts u laws) m.shutdown)
          & accepts-message (Bare.to_object u) (Bare.verify u) "reindexFile" m.reindex_file
              (Given-always (Bare.verify-accepts u laws) m.reindex_file)
          & tt)
        (omega (
          arith,
          r.one,
          given-map (ErrorResponse.to_object u) m.error
              ⊕ given-map (SearchResponse.to_object u) m.search
              ⊕ given-map (ListTagsResponse.to_object u) m.list_tags
              ⊕ given-map (HydrateTagsResponse.to_object u) m.hydrate_tags
              ⊕ given-map (RelatedResponse.to_object u) m.related
              ⊕ given-map (GlobSearchResponse.to_object u) m.glob_search
              ⊕ given-map (TagResponse.to_object u) m.tag
              ⊕ given-map (MetadataResponse.to_object u) m.metadata
              ⊕ given-map (StatusResponse.to_object u) m.status
              ⊕ given-map (ReloadRulesResponse.to_object u) m.reload_rules
              ⊕ given-map (ListDirectoryResponse.to_object u) m.list_directory
              ⊕ given-map (StatFileResponse.to_object u) m.stat_file
              ⊕ given-map (RenameFileResponse.to_object u) m.rename_file
              ⊕ given-map (Bare.to_object u) m.delete_file
              ⊕ given-map (Bare.to_object u) m.chmod_file
              ⊕ given-map (Bare.to_object u) m.copy
              ⊕ given-map (PasteResponse.to_object u) m.paste
              ⊕ given-map (CreateFileResponse.to_object u) m.create_file
              ⊕ given-map (CreateDirectoryResponse.to_object u) m.create_directory
              ⊕ given-map (ListPlacesResponse.to_object u) m.list_places
              ⊕ given-map (Bare.to_object u) m.pin_place
              ⊕ given-map (Bare.to_object u) m.unpin_place
              ⊕ given-map (Bare.to_object u) m.trash_file
              ⊕ given-map (ListTrashResponse.to_object u) m.list_trash
              ⊕ given-map (Bare.to_object u) m.restore_trash
              ⊕ given-map (Bare.to_object u) m.empty_trash
              ⊕ given-map (ListAppsForFileResponse.to_object u) m.list_apps_for_file
              ⊕ given-map (Bare.to_object u) m.open_with_app
              ⊕ given-map (GetBrowserConfigResponse.to_object u) m.get_browser_config
              ⊕ given-map (LaunchGuiResponse.to_object u) m.launch_gui
              ⊕ given-map (GetThumbnailResponse.to_object u) m.get_thumbnail
              ⊕ given-map (ListMountsResponse.to_object u) m.list_mounts
              ⊕ given-map (GetFileBadgesResponse.to_object u) m.get_file_badges
              ⊕ given-map (GetFileActionsResponse.to_object u) m.get_file_actions
              ⊕ given-map (Bare.to_object u) m.run_file_action
              ⊕ given-map (PinSearchResponse.to_object u) m.pin_search
              ⊕ given-map (Bare.to_object u) m.unpin_search
              ⊕ given-map (ListSavedSearchesResponse.to_object u) m.list_saved_searches
              ⊕ given-map (Bare.to_object u) m.shutdown
              ⊕ given-map (Bare.to_object u) m.reindex_file
              ⊕ nothing,
        )))
