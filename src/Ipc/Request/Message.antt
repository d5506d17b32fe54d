-- ===== src/Ipc/Request/Message.antt =====
-- The message `Request` of internal/ipc/gen/ipc_generated.js.
use tilbo.Prelude.{Option, none}
use tilbo.Ipc.Bare.{Bare}
use tilbo.Ipc.ChmodFileRequest.{ChmodFileRequest}
use tilbo.Ipc.CopyRequest.{CopyRequest}
use tilbo.Ipc.CreateDirectoryRequest.{CreateDirectoryRequest}
use tilbo.Ipc.CreateFileRequest.{CreateFileRequest}
use tilbo.Ipc.DeleteFileRequest.{DeleteFileRequest}
use tilbo.Ipc.GetFileActionsRequest.{GetFileActionsRequest}
use tilbo.Ipc.GetFileBadgesRequest.{GetFileBadgesRequest}
use tilbo.Ipc.GetThumbnailRequest.{GetThumbnailRequest}
use tilbo.Ipc.GlobSearchRequest.{GlobSearchRequest}
use tilbo.Ipc.HydrateTagsRequest.{HydrateTagsRequest}
use tilbo.Ipc.LaunchGuiRequest.{LaunchGuiRequest}
use tilbo.Ipc.ListAppsForFileRequest.{ListAppsForFileRequest}
use tilbo.Ipc.ListDirectoryRequest.{ListDirectoryRequest}
use tilbo.Ipc.ListTagsRequest.{ListTagsRequest}
use tilbo.Ipc.MetadataRequest.{MetadataRequest}
use tilbo.Ipc.MetadataSetRequest.{MetadataSetRequest}
use tilbo.Ipc.OpenWithAppRequest.{OpenWithAppRequest}
use tilbo.Ipc.PasteRequest.{PasteRequest}
use tilbo.Ipc.PinPlaceRequest.{PinPlaceRequest}
use tilbo.Ipc.PinSearchRequest.{PinSearchRequest}
use tilbo.Ipc.ReindexFileRequest.{ReindexFileRequest}
use tilbo.Ipc.RelatedRequest.{RelatedRequest}
use tilbo.Ipc.RenameFileRequest.{RenameFileRequest}
use tilbo.Ipc.RestoreTrashRequest.{RestoreTrashRequest}
use tilbo.Ipc.RunFileActionRequest.{RunFileActionRequest}
use tilbo.Ipc.SearchRequest.{SearchRequest}
use tilbo.Ipc.StatFileRequest.{StatFileRequest}
use tilbo.Ipc.TagRequest.{TagRequest}
use tilbo.Ipc.TrashFileRequest.{TrashFileRequest}
use tilbo.Ipc.UnpinPlaceRequest.{UnpinPlaceRequest}
use tilbo.Ipc.UnpinSearchRequest.{UnpinSearchRequest}

pub record Request : Type 0 where
  pub search : Option SearchRequest
  pub list_tags : Option ListTagsRequest
  pub hydrate_tags : Option HydrateTagsRequest
  pub related : Option RelatedRequest
  pub glob_search : Option GlobSearchRequest
  pub tag : Option TagRequest
  pub metadata : Option MetadataRequest
  pub metadata_set : Option MetadataSetRequest
  pub status : Option Bare
  pub reload_rules : Option Bare
  pub list_directory : Option ListDirectoryRequest
  pub stat_file : Option StatFileRequest
  pub rename_file : Option RenameFileRequest
  pub delete_file : Option DeleteFileRequest
  pub chmod_file : Option ChmodFileRequest
  pub copy : Option CopyRequest
  pub paste : Option PasteRequest
  pub create_file : Option CreateFileRequest
  pub create_directory : Option CreateDirectoryRequest
  pub list_places : Option Bare
  pub pin_place : Option PinPlaceRequest
  pub unpin_place : Option UnpinPlaceRequest
  pub trash_file : Option TrashFileRequest
  pub list_trash : Option Bare
  pub restore_trash : Option RestoreTrashRequest
  pub empty_trash : Option Bare
  pub list_apps_for_file : Option ListAppsForFileRequest
  pub open_with_app : Option OpenWithAppRequest
  pub get_browser_config : Option Bare
  pub launch_gui : Option LaunchGuiRequest
  pub get_thumbnail : Option GetThumbnailRequest
  pub list_mounts : Option Bare
  pub get_file_badges : Option GetFileBadgesRequest
  pub get_file_actions : Option GetFileActionsRequest
  pub run_file_action : Option RunFileActionRequest
  pub pin_search : Option PinSearchRequest
  pub unpin_search : Option UnpinSearchRequest
  pub list_saved_searches : Option Bare
  pub shutdown : Option Bare
  pub reindex_file : Option ReindexFileRequest

-- `new Request()`: every property has the default of the prototype.
abbrev pub empty : Request
empty = record {
  search = none;
  list_tags = none;
  hydrate_tags = none;
  related = none;
  glob_search = none;
  tag = none;
  metadata = none;
  metadata_set = none;
  status = none;
  reload_rules = none;
  list_directory = none;
  stat_file = none;
  rename_file = none;
  delete_file = none;
  chmod_file = none;
  copy = none;
  paste = none;
  create_file = none;
  create_directory = none;
  list_places = none;
  pin_place = none;
  unpin_place = none;
  trash_file = none;
  list_trash = none;
  restore_trash = none;
  empty_trash = none;
  list_apps_for_file = none;
  open_with_app = none;
  get_browser_config = none;
  launch_gui = none;
  get_thumbnail = none;
  list_mounts = none;
  get_file_badges = none;
  get_file_actions = none;
  run_file_action = none;
  pin_search = none;
  unpin_search = none;
  list_saved_searches = none;
  shutdown = none;
  reindex_file = none;
}
