-- ===== src/Verify/Request/Kinds.antt =====
-- The kinds of `Request` in internal/ipc/gen/ipc_generated.js: the names of their properties and, for
-- each, its class, written out by themselves for what `verify` is compared with.
use tilbo.Prelude.{String, List, [], ◌∷◌}
use tilbo.Values.{Value, Util}
use tilbo.Values.Oneof.{Accepts, ◌and◌}
use tilbo.Verify.Bare
use tilbo.Verify.ChmodFileRequest
use tilbo.Verify.CopyRequest
use tilbo.Verify.CreateDirectoryRequest
use tilbo.Verify.CreateFileRequest
use tilbo.Verify.DeleteFileRequest
use tilbo.Verify.GetFileActionsRequest
use tilbo.Verify.GetFileBadgesRequest
use tilbo.Verify.GetThumbnailRequest
use tilbo.Verify.GlobSearchRequest
use tilbo.Verify.HydrateTagsRequest
use tilbo.Verify.LaunchGuiRequest
use tilbo.Verify.ListAppsForFileRequest
use tilbo.Verify.ListDirectoryRequest
use tilbo.Verify.ListTagsRequest
use tilbo.Verify.MetadataRequest
use tilbo.Verify.MetadataSetRequest
use tilbo.Verify.OpenWithAppRequest
use tilbo.Verify.PasteRequest
use tilbo.Verify.PinPlaceRequest
use tilbo.Verify.PinSearchRequest
use tilbo.Verify.ReindexFileRequest
use tilbo.Verify.RelatedRequest
use tilbo.Verify.RenameFileRequest
use tilbo.Verify.RestoreTrashRequest
use tilbo.Verify.RunFileActionRequest
use tilbo.Verify.SearchRequest
use tilbo.Verify.StatFileRequest
use tilbo.Verify.TagRequest
use tilbo.Verify.TrashFileRequest
use tilbo.Verify.UnpinPlaceRequest
use tilbo.Verify.UnpinSearchRequest

abbrev pub names : List String
names =
    "search" ∷ "listTags" ∷ "hydrateTags" ∷ "related" ∷ "globSearch" ∷ "tag" ∷ "metadata"
    ∷ "metadataSet" ∷ "status" ∷ "reloadRules" ∷ "listDirectory" ∷ "statFile" ∷ "renameFile"
    ∷ "deleteFile" ∷ "chmodFile" ∷ "copy" ∷ "paste" ∷ "createFile" ∷ "createDirectory"
    ∷ "listPlaces" ∷ "pinPlace" ∷ "unpinPlace" ∷ "trashFile" ∷ "listTrash" ∷ "restoreTrash"
    ∷ "emptyTrash" ∷ "listAppsForFile" ∷ "openWithApp" ∷ "getBrowserConfig" ∷ "launchGui"
    ∷ "getThumbnail" ∷ "listMounts" ∷ "getFileBadges" ∷ "getFileActions" ∷ "runFileAction"
    ∷ "pinSearch" ∷ "unpinSearch" ∷ "listSavedSearches" ∷ "shutdown" ∷ "reindexFile" ∷ []

-- Each kind that the value has as a property of its own is accepted by the class of the kind.
module _ (u : Util) where
  abbrev pub AreAccepted : Value → Type 0
  AreAccepted v =
      Accepts v "search" (SearchRequest.verify u)
      and Accepts v "listTags" (ListTagsRequest.verify u)
      and Accepts v "hydrateTags" (HydrateTagsRequest.verify u)
      and Accepts v "related" (RelatedRequest.verify u)
      and Accepts v "globSearch" (GlobSearchRequest.verify u)
      and Accepts v "tag" (TagRequest.verify u)
      and Accepts v "metadata" (MetadataRequest.verify u)
      and Accepts v "metadataSet" (MetadataSetRequest.verify u)
      and Accepts v "status" (Bare.verify u)
      and Accepts v "reloadRules" (Bare.verify u)
      and Accepts v "listDirectory" (ListDirectoryRequest.verify u)
      and Accepts v "statFile" (StatFileRequest.verify u)
      and Accepts v "renameFile" (RenameFileRequest.verify u)
      and Accepts v "deleteFile" (DeleteFileRequest.verify u)
      and Accepts v "chmodFile" (ChmodFileRequest.verify u)
      and Accepts v "copy" (CopyRequest.verify u)
      and Accepts v "paste" (PasteRequest.verify u)
      and Accepts v "createFile" (CreateFileRequest.verify u)
      and Accepts v "createDirectory" (CreateDirectoryRequest.verify u)
      and Accepts v "listPlaces" (Bare.verify u)
      and Accepts v "pinPlace" (PinPlaceRequest.verify u)
      and Accepts v "unpinPlace" (UnpinPlaceRequest.verify u)
      and Accepts v "trashFile" (TrashFileRequest.verify u)
      and Accepts v "listTrash" (Bare.verify u)
      and Accepts v "restoreTrash" (RestoreTrashRequest.verify u)
      and Accepts v "emptyTrash" (Bare.verify u)
      and Accepts v "listAppsForFile" (ListAppsForFileRequest.verify u)
      and Accepts v "openWithApp" (OpenWithAppRequest.verify u)
      and Accepts v "getBrowserConfig" (Bare.verify u)
      and Accepts v "launchGui" (LaunchGuiRequest.verify u)
      and Accepts v "getThumbnail" (GetThumbnailRequest.verify u)
      and Accepts v "listMounts" (Bare.verify u)
      and Accepts v "getFileBadges" (GetFileBadgesRequest.verify u)
      and Accepts v "getFileActions" (GetFileActionsRequest.verify u)
      and Accepts v "runFileAction" (RunFileActionRequest.verify u)
      and Accepts v "pinSearch" (PinSearchRequest.verify u)
      and Accepts v "unpinSearch" (UnpinSearchRequest.verify u)
      and Accepts v "listSavedSearches" (Bare.verify u)
      and Accepts v "shutdown" (Bare.verify u)
      and Accepts v "reindexFile" (ReindexFileRequest.verify u)
      and Unit
