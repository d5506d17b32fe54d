-- ===== src/Verify/Response/Kinds.antt =====
-- The kinds of `Response` in internal/ipc/gen/ipc_generated.js: the names of their properties and, for
-- each, its class, written out by themselves for what `verify` is compared with.
use tilbo.Prelude.{String, List, [], ◌∷◌}
use tilbo.Values.{Value, Util}
use tilbo.Values.Oneof.{Accepts, ◌and◌}
use tilbo.Verify.Bare
use tilbo.Verify.CreateDirectoryResponse
use tilbo.Verify.CreateFileResponse
use tilbo.Verify.ErrorResponse
use tilbo.Verify.GetBrowserConfigResponse
use tilbo.Verify.GetFileActionsResponse
use tilbo.Verify.GetFileBadgesResponse
use tilbo.Verify.GetThumbnailResponse
use tilbo.Verify.GlobSearchResponse
use tilbo.Verify.HydrateTagsResponse
use tilbo.Verify.LaunchGuiResponse
use tilbo.Verify.ListAppsForFileResponse
use tilbo.Verify.ListDirectoryResponse
use tilbo.Verify.ListMountsResponse
use tilbo.Verify.ListPlacesResponse
use tilbo.Verify.ListSavedSearchesResponse
use tilbo.Verify.ListTagsResponse
use tilbo.Verify.ListTrashResponse
use tilbo.Verify.MetadataResponse
use tilbo.Verify.PasteResponse
use tilbo.Verify.PinSearchResponse
use tilbo.Verify.RelatedResponse
use tilbo.Verify.ReloadRulesResponse
use tilbo.Verify.RenameFileResponse
use tilbo.Verify.SearchResponse
use tilbo.Verify.StatFileResponse
use tilbo.Verify.StatusResponse
use tilbo.Verify.TagResponse

abbrev pub names : List String
names =
    "error" ∷ "search" ∷ "listTags" ∷ "hydrateTags" ∷ "related" ∷ "globSearch" ∷ "tag" ∷ "metadata"
    ∷ "status" ∷ "reloadRules" ∷ "listDirectory" ∷ "statFile" ∷ "renameFile" ∷ "deleteFile"
    ∷ "chmodFile" ∷ "copy" ∷ "paste" ∷ "createFile" ∷ "createDirectory" ∷ "listPlaces" ∷ "pinPlace"
    ∷ "unpinPlace" ∷ "trashFile" ∷ "listTrash" ∷ "restoreTrash" ∷ "emptyTrash" ∷ "listAppsForFile"
    ∷ "openWithApp" ∷ "getBrowserConfig" ∷ "launchGui" ∷ "getThumbnail" ∷ "listMounts"
    ∷ "getFileBadges" ∷ "getFileActions" ∷ "runFileAction" ∷ "pinSearch" ∷ "unpinSearch"
    ∷ "listSavedSearches" ∷ "shutdown" ∷ "reindexFile" ∷ []

-- Each kind that the value has as a property of its own is accepted by the class of the kind.
module _ (u : Util) where
  abbrev pub AreAccepted : Value → Type 0
  AreAccepted v =
      Accepts v "error" (ErrorResponse.verify u)
      and Accepts v "search" (SearchResponse.verify u)
      and Accepts v "listTags" (ListTagsResponse.verify u)
      and Accepts v "hydrateTags" (HydrateTagsResponse.verify u)
      and Accepts v "related" (RelatedResponse.verify u)
      and Accepts v "globSearch" (GlobSearchResponse.verify u)
      and Accepts v "tag" (TagResponse.verify u)
      and Accepts v "metadata" (MetadataResponse.verify u)
      and Accepts v "status" (StatusResponse.verify u)
      and Accepts v "reloadRules" (ReloadRulesResponse.verify u)
      and Accepts v "listDirectory" (ListDirectoryResponse.verify u)
      and Accepts v "statFile" (StatFileResponse.verify u)
      and Accepts v "renameFile" (RenameFileResponse.verify u)
      and Accepts v "deleteFile" (Bare.verify u)
      and Accepts v "chmodFile" (Bare.verify u)
      and Accepts v "copy" (Bare.verify u)
      and Accepts v "paste" (PasteResponse.verify u)
      and Accepts v "createFile" (CreateFileResponse.verify u)
      and Accepts v "createDirectory" (CreateDirectoryResponse.verify u)
      and Accepts v "listPlaces" (ListPlacesResponse.verify u)
      and Accepts v "pinPlace" (Bare.verify u)
      and Accepts v "unpinPlace" (Bare.verify u)
      and Accepts v "trashFile" (Bare.verify u)
      and Accepts v "listTrash" (ListTrashResponse.verify u)
      and Accepts v "restoreTrash" (Bare.verify u)
      and Accepts v "emptyTrash" (Bare.verify u)
      and Accepts v "listAppsForFile" (ListAppsForFileResponse.verify u)
      and Accepts v "openWithApp" (Bare.verify u)
      and Accepts v "getBrowserConfig" (GetBrowserConfigResponse.verify u)
      and Accepts v "launchGui" (LaunchGuiResponse.verify u)
      and Accepts v "getThumbnail" (GetThumbnailResponse.verify u)
      and Accepts v "listMounts" (ListMountsResponse.verify u)
      and Accepts v "getFileBadges" (GetFileBadgesResponse.verify u)
      and Accepts v "getFileActions" (GetFileActionsResponse.verify u)
      and Accepts v "runFileAction" (Bare.verify u)
      and Accepts v "pinSearch" (PinSearchResponse.verify u)
      and Accepts v "unpinSearch" (Bare.verify u)
      and Accepts v "listSavedSearches" (ListSavedSearchesResponse.verify u)
      and Accepts v "shutdown" (Bare.verify u)
      and Accepts v "reindexFile" (Bare.verify u)
      and Unit
