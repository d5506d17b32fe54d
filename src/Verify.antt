-- ===== src/Verify.antt =====
-- `verify` and `toObject` of the message classes of internal/ipc/gen/ipc_generated.js.
pub mod Envelope
pub mod Request
pub mod Response
pub mod Event
pub mod ErrorResponse
pub mod SearchRequest
pub mod FileResult
pub mod SearchResponse
pub mod TagRequest
pub mod TagResponse
pub mod MetadataRequest
pub mod MetadataResponse
pub mod MetadataSetRequest
pub mod RelatedRequest
pub mod ScoredFile
pub mod RelatedResponse
pub mod Bare
pub mod StatusResponse
pub mod ReindexFileRequest
pub mod ReloadRulesResponse
pub mod ListTagsRequest
pub mod ListTagsResponse
pub mod HydrateTagsRequest
pub mod HydratedPathTags
pub mod HydrateTagsResponse
pub mod ListDirectoryRequest
pub mod DirEntry
pub mod ListDirectoryResponse
pub mod StatFileRequest
pub mod FileStat
pub mod StatFileResponse
pub mod GlobSearchRequest
pub mod GlobSearchResponse
pub mod RenameFileRequest
pub mod RenameFileResponse
pub mod DeleteFileRequest
pub mod ChmodFileRequest
pub mod PlaceEntry
pub mod ListPlacesResponse
pub mod FileTaggedEvent
pub mod IndexUpdatedEvent
pub mod DaemonStateChangedEvent
pub mod PinPlaceRequest
pub mod UnpinPlaceRequest
pub mod TrashFileRequest
pub mod TrashEntry
pub mod ListTrashResponse
pub mod RestoreTrashRequest
pub mod AppEntry
pub mod ListAppsForFileRequest
pub mod ListAppsForFileResponse
pub mod OpenWithAppRequest
pub mod GetBrowserConfigResponse
pub mod GetFileBadgesRequest
pub mod GetFileBadgesResponse
pub mod FileAction
pub mod GetFileActionsRequest
pub mod GetFileActionsResponse
pub mod RunFileActionRequest
pub mod LaunchGuiRequest
pub mod LaunchGuiResponse
pub mod ShowWindowEvent
pub mod GetThumbnailRequest
pub mod GetThumbnailResponse
pub mod CopyRequest
pub mod PasteRequest
pub mod PasteResponse
pub mod CreateFileRequest
pub mod CreateFileResponse
pub mod CreateDirectoryRequest
pub mod CreateDirectoryResponse
pub mod MountEntry
pub mod ListMountsResponse
pub mod SavedSearch
pub mod PinSearchRequest
pub mod PinSearchResponse
pub mod UnpinSearchRequest
pub mod ListSavedSearchesResponse
pub mod Oneofs
pub mod Examples
