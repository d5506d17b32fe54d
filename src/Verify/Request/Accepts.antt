-- ===== src/Verify/Request/Accepts.antt =====
-- What `verify` of `Request` accepts.
use tilbo.Prelude.{◌≡◌, ◌≤◌, refl, none, arith, Given}
use tilbo.Values.{Util, Documented}
use tilbo.Values.Accepts.{◌⊕◌, ◌&◌, given-map, nothing, record-accepts}
use tilbo.Values.Oneof.{oneof-accepts_slots}
use tilbo.Values.Fields.{Given-always, accepts-message}
use tilbo.Ipc.Request.{Request}
use tilbo.Codec.Scalars.{Given-map}
use tilbo.Verify.Bare
use tilbo.Verify.ChmodFileRequest
use tilbo.Verify.CopyRequest
use tilbo.Verify.CreateDirectoryRequest
use tilbo.Verify.CreateFileRequest
use tilbo.Verify.DeleteFileRequest
use tilbo.Verify.GetFileActionsRequest
use tilbo.Verify.GetFileBadgesRequest
use tilbo.Verify.GetThumbnailRequest
use tilbo.Verify.GlobSearchRequest
use tilbo.Verify.HydrateTagsRequest
use tilbo.Verify.LaunchGuiRequest
use tilbo.Verify.ListAppsForFileRequest
use tilbo.Verify.ListDirectoryRequest
use tilbo.Verify.ListTagsRequest
use tilbo.Verify.MetadataRequest
use tilbo.Verify.MetadataSetRequest
use tilbo.Verify.OpenWithAppRequest
use tilbo.Verify.PasteRequest
use tilbo.Verify.PinPlaceRequest
use tilbo.Verify.PinSearchRequest
use tilbo.Verify.ReindexFileRequest
use tilbo.Verify.RelatedRequest
use tilbo.Verify.RenameFileRequest
use tilbo.Verify.RestoreTrashRequest
use tilbo.Verify.RunFileActionRequest
use tilbo.Verify.SearchRequest
use tilbo.Verify.StatFileRequest
use tilbo.Verify.TagRequest
use tilbo.Verify.TrashFileRequest
use tilbo.Verify.UnpinPlaceRequest
use tilbo.Verify.UnpinSearchRequest
use tilbo.Verify.Request.{members, count_kinds, to_object, verify}

-- One member of the oneof is set at most, and the nested messages are as regular.
pub record IsRegular (m : Request) : Type 0 where
  pub one : count_kinds m ≤ 1
  pub tag : Given TagRequest.IsRegular m.tag
  pub get_thumbnail : Given GetThumbnailRequest.IsRegular m.get_thumbnail

module _ (u : Util) (laws : Documented u) where
  -- `verify` accepts what `toObject` makes of a regular message.
  pub verify-accepts : (m : Request) → IsRegular m → verify u (to_object u m) ≡ none
  unfolding verify to_object
  verify-accepts m r = record-accepts _ (
      oneof-accepts_slots _ refl "kind" (members u)
        (accepts-message (SearchRequest.to_object u) (SearchRequest.verify u) "search" m.search
            (Given-always (SearchRequest.verify-accepts u laws) m.search)
          & accepts-message (ListTagsRequest.to_object u) (ListTagsRequest.verify u) "listTags"
              m.list_tags (Given-always (ListTagsRequest.verify-accepts u laws) m.list_tags)
          & accepts-message (HydrateTagsRequest.to_object u) (HydrateTagsRequest.verify u)
              "hydrateTags" m.hydrate_tags
              (Given-always (HydrateTagsRequest.verify-accepts u laws) m.hydrate_tags)
          & accepts-message (RelatedRequest.to_object u) (RelatedRequest.verify u) "related"
              m.related (Given-always (RelatedRequest.verify-accepts u laws) m.related)
          & accepts-message (GlobSearchRequest.to_object u) (GlobSearchRequest.verify u)
              "globSearch" m.glob_search
              (Given-always (GlobSearchRequest.verify-accepts u laws) m.glob_search)
          & accepts-message (TagRequest.to_object u) (TagRequest.verify u) "tag" m.tag
              (Given-map (TagRequest.verify-accepts u laws) m.tag r.tag)
          & accepts-message (MetadataRequest.to_object u) (MetadataRequest.verify u) "metadata"
              m.metadata (Given-always (MetadataRequest.verify-accepts u laws) m.metadata)
          & accepts-message (MetadataSetRequest.to_object u) (MetadataSetRequest.verify u)
              "metadataSet" m.metadata_set
              (Given-always (MetadataSetRequest.verify-accepts u laws) m.metadata_set)
          & accepts-message (Bare.to_object u) (Bare.verify u) "status" m.status
              (Given-always (Bare.verify-accepts u laws) m.status)
          & accepts-message (Bare.to_object u) (Bare.verify u) "reloadRules" m.reload_rules
              (Given-always (Bare.verify-accepts u laws) m.reload_rules)
          & accepts-message (ListDirectoryRequest.to_object u) (ListDirectoryRequest.verify u)
              "listDirectory" m.list_directory
              (Given-always (ListDirectoryRequest.verify-accepts u laws) m.list_directory)
          & accepts-message (StatFileRequest.to_object u) (StatFileRequest.verify u) "statFile"
              m.stat_file (Given-always (StatFileRequest.verify-accepts u laws) m.stat_file)
          & accepts-message (RenameFileRequest.to_object u) (RenameFileRequest.verify u)
              "renameFile" m.rename_file
              (Given-always (RenameFileRequest.verify-accepts u laws) m.rename_file)
          & accepts-message (DeleteFileRequest.to_object u) (DeleteFileRequest.verify u)
              "deleteFile" m.delete_file
              (Given-always (DeleteFileRequest.verify-accepts u laws) m.delete_file)
          & accepts-message (ChmodFileRequest.to_object u) (ChmodFileRequest.verify u) "chmodFile"
              m.chmod_file (Given-always (ChmodFileRequest.verify-accepts u laws) m.chmod_file)
          & accepts-message (CopyRequest.to_object u) (CopyRequest.verify u) "copy" m.copy
              (Given-always (CopyRequest.verify-accepts u laws) m.copy)
          & accepts-message (PasteRequest.to_object u) (PasteRequest.verify u) "paste" m.paste
              (Given-always (PasteRequest.verify-accepts u laws) m.paste)
          & accepts-message (CreateFileRequest.to_object u) (CreateFileRequest.verify u)
              "createFile" m.create_file
              (Given-always (CreateFileRequest.verify-accepts u laws) m.create_file)
          & accepts-message (CreateDirectoryRequest.to_object u) (CreateDirectoryRequest.verify u)
              "createDirectory" m.create_directory
              (Given-always (CreateDirectoryRequest.verify-accepts u laws) m.create_directory)
          & accepts-message (Bare.to_object u) (Bare.verify u) "listPlaces" m.list_places
              (Given-always (Bare.verify-accepts u laws) m.list_places)
          & accepts-message (PinPlaceRequest.to_object u) (PinPlaceRequest.verify u) "pinPlace"
              m.pin_place (Given-always (PinPlaceRequest.verify-accepts u laws) m.pin_place)
          & accepts-message (UnpinPlaceRequest.to_object u) (UnpinPlaceRequest.verify u)
              "unpinPlace" m.unpin_place
              (Given-always (UnpinPlaceRequest.verify-accepts u laws) m.unpin_place)
          & accepts-message (TrashFileRequest.to_object u) (TrashFileRequest.verify u) "trashFile"
              m.trash_file (Given-always (TrashFileRequest.verify-accepts u laws) m.trash_file)
          & accepts-message (Bare.to_object u) (Bare.verify u) "listTrash" m.list_trash
              (Given-always (Bare.verify-accepts u laws) m.list_trash)
          & accepts-message (RestoreTrashRequest.to_object u) (RestoreTrashRequest.verify u)
              "restoreTrash" m.restore_trash
              (Given-always (RestoreTrashRequest.verify-accepts u laws) m.restore_trash)
          & accepts-message (Bare.to_object u) (Bare.verify u) "emptyTrash" m.empty_trash
              (Given-always (Bare.verify-accepts u laws) m.empty_trash)
          & accepts-message (ListAppsForFileRequest.to_object u) (ListAppsForFileRequest.verify u)
              "listAppsForFile" m.list_apps_for_file
              (Given-always (ListAppsForFileRequest.verify-accepts u laws) m.list_apps_for_file)
          & accepts-message (OpenWithAppRequest.to_object u) (OpenWithAppRequest.verify u)
              "openWithApp" m.open_with_app
              (Given-always (OpenWithAppRequest.verify-accepts u laws) m.open_with_app)
          & accepts-message (Bare.to_object u) (Bare.verify u) "getBrowserConfig"
              m.get_browser_config (Given-always (Bare.verify-accepts u laws) m.get_browser_config)
          & accepts-message (LaunchGuiRequest.to_object u) (LaunchGuiRequest.verify u) "launchGui"
              m.launch_gui (Given-always (LaunchGuiRequest.verify-accepts u laws) m.launch_gui)
          & accepts-message (GetThumbnailRequest.to_object u) (GetThumbnailRequest.verify u)
              "getThumbnail" m.get_thumbnail
              (Given-map (GetThumbnailRequest.verify-accepts u laws) m.get_thumbnail
                r.get_thumbnail)
          & accepts-message (Bare.to_object u) (Bare.verify u) "listMounts" m.list_mounts
              (Given-always (Bare.verify-accepts u laws) m.list_mounts)
          & accepts-message (GetFileBadgesRequest.to_object u) (GetFileBadgesRequest.verify u)
              "getFileBadges" m.get_file_badges
              (Given-always (GetFileBadgesRequest.verify-accepts u laws) m.get_file_badges)
          & accepts-message (GetFileActionsRequest.to_object u) (GetFileActionsRequest.verify u)
              "getFileActions" m.get_file_actions
              (Given-always (GetFileActionsRequest.verify-accepts u laws) m.get_file_actions)
          & accepts-message (RunFileActionRequest.to_object u) (RunFileActionRequest.verify u)
              "runFileAction" m.run_file_action
              (Given-always (RunFileActionRequest.verify-accepts u laws) m.run_file_action)
          & accepts-message (PinSearchRequest.to_object u) (PinSearchRequest.verify u) "pinSearch"
              m.pin_search (Given-always (PinSearchRequest.verify-accepts u laws) m.pin_search)
          & accepts-message (UnpinSearchRequest.to_object u) (UnpinSearchRequest.verify u)
              "unpinSearch" m.unpin_search
              (Given-always (UnpinSearchRequest.verify-accepts u laws) m.unpin_search)
          & accepts-message (Bare.to_object u) (Bare.verify u) "listSavedSearches"
              m.list_saved_searches
              (Given-always (Bare.verify-accepts u laws) m.list_saved_searches)
          & accepts-message (Bare.to_object u) (Bare.verify u) "shutdown" m.shutdown
              (Given-always (Bare.verify-accepts u laws) m.shutdown)
          & accepts-message (ReindexFileRequest.to_object u) (ReindexFileRequest.verify u)
              "reindexFile" m.reindex_file
              (Given-always (ReindexFileRequest.verify-accepts u laws) m.reindex_file)
          & tt)
        (omega (
          arith,
          r.one,
          given-map (SearchRequest.to_object u) m.search
              ⊕ given-map (ListTagsRequest.to_object u) m.list_tags
              ⊕ given-map (HydrateTagsRequest.to_object u) m.hydrate_tags
              ⊕ given-map (RelatedRequest.to_object u) m.related
              ⊕ given-map (GlobSearchRequest.to_object u) m.glob_search
              ⊕ given-map (TagRequest.to_object u) m.tag
              ⊕ given-map (MetadataRequest.to_object u) m.metadata
              ⊕ given-map (MetadataSetRequest.to_object u) m.metadata_set
              ⊕ given-map (Bare.to_object u) m.status
              ⊕ given-map (Bare.to_object u) m.reload_rules
              ⊕ given-map (ListDirectoryRequest.to_object u) m.list_directory
              ⊕ given-map (StatFileRequest.to_object u) m.stat_file
              ⊕ given-map (RenameFileRequest.to_object u) m.rename_file
              ⊕ given-map (DeleteFileRequest.to_object u) m.delete_file
              ⊕ given-map (ChmodFileRequest.to_object u) m.chmod_file
              ⊕ given-map (CopyRequest.to_object u) m.copy
              ⊕ given-map (PasteRequest.to_object u) m.paste
              ⊕ given-map (CreateFileRequest.to_object u) m.create_file
              ⊕ given-map (CreateDirectoryRequest.to_object u) m.create_directory
              ⊕ given-map (Bare.to_object u) m.list_places
              ⊕ given-map (PinPlaceRequest.to_object u) m.pin_place
              ⊕ given-map (UnpinPlaceRequest.to_object u) m.unpin_place
              ⊕ given-map (TrashFileRequest.to_object u) m.trash_file
              ⊕ given-map (Bare.to_object u) m.list_trash
              ⊕ given-map (RestoreTrashRequest.to_object u) m.restore_trash
              ⊕ given-map (Bare.to_object u) m.empty_trash
              ⊕ given-map (ListAppsForFileRequest.to_object u) m.list_apps_for_file
              ⊕ given-map (OpenWithAppRequest.to_object u) m.open_with_app
              ⊕ given-map (Bare.to_object u) m.get_browser_config
              ⊕ given-map (LaunchGuiRequest.to_object u) m.launch_gui
              ⊕ given-map (GetThumbnailRequest.to_object u) m.get_thumbnail
              ⊕ given-map (Bare.to_object u) m.list_mounts
              ⊕ given-map (GetFileBadgesRequest.to_object u) m.get_file_badges
              ⊕ given-map (GetFileActionsRequest.to_object u) m.get_file_actions
              ⊕ given-map (RunFileActionRequest.to_object u) m.run_file_action
              ⊕ given-map (PinSearchRequest.to_object u) m.pin_search
              ⊕ given-map (UnpinSearchRequest.to_object u) m.unpin_search
              ⊕ given-map (Bare.to_object u) m.list_saved_searches
              ⊕ given-map (Bare.to_object u) m.shutdown
              ⊕ given-map (ReindexFileRequest.to_object u) m.reindex_file
              ⊕ nothing,
        )))
