-- ===== src/Ipc/Response/Message.antt =====
-- The message `Response` of internal/ipc/gen/ipc_generated.js.
use tilbo.Prelude.{Option, none}
use tilbo.Ipc.Bare.{Bare}
use tilbo.Ipc.CreateDirectoryResponse.{CreateDirectoryResponse}
use tilbo.Ipc.CreateFileResponse.{CreateFileResponse}
use tilbo.Ipc.ErrorResponse.{ErrorResponse}
use tilbo.Ipc.GetBrowserConfigResponse.{GetBrowserConfigResponse}
use tilbo.Ipc.GetFileActionsResponse.{GetFileActionsResponse}
use tilbo.Ipc.GetFileBadgesResponse.{GetFileBadgesResponse}
use tilbo.Ipc.GetThumbnailResponse.{GetThumbnailResponse}
use tilbo.Ipc.GlobSearchResponse.{GlobSearchResponse}
use tilbo.Ipc.HydrateTagsResponse.{HydrateTagsResponse}
use tilbo.Ipc.LaunchGuiResponse.{LaunchGuiResponse}
use tilbo.Ipc.ListAppsForFileResponse.{ListAppsForFileResponse}
use tilbo.Ipc.ListDirectoryResponse.{ListDirectoryResponse}
use tilbo.Ipc.ListMountsResponse.{ListMountsResponse}
use tilbo.Ipc.ListPlacesResponse.{ListPlacesResponse}
use tilbo.Ipc.ListSavedSearchesResponse.{ListSavedSearchesResponse}
use tilbo.Ipc.ListTagsResponse.{ListTagsResponse}
use tilbo.Ipc.ListTrashResponse.{ListTrashResponse}
use tilbo.Ipc.MetadataResponse.{MetadataResponse}
use tilbo.Ipc.PasteResponse.{PasteResponse}
use tilbo.Ipc.PinSearchResponse.{PinSearchResponse}
use tilbo.Ipc.RelatedResponse.{RelatedResponse}
use tilbo.Ipc.ReloadRulesResponse.{ReloadRulesResponse}
use tilbo.Ipc.RenameFileResponse.{RenameFileResponse}
use tilbo.Ipc.SearchResponse.{SearchResponse}
use tilbo.Ipc.StatFileResponse.{StatFileResponse}
use tilbo.Ipc.StatusResponse.{StatusResponse}
use tilbo.Ipc.TagResponse.{TagResponse}

pub record Response : Type 0 where
  pub error : Option ErrorResponse
  pub search : Option SearchResponse
  pub list_tags : Option ListTagsResponse
  pub hydrate_tags : Option HydrateTagsResponse
  pub related : Option RelatedResponse
  pub glob_search : Option GlobSearchResponse
  pub tag : Option TagResponse
  pub metadata : Option MetadataResponse
  pub status : Option StatusResponse
  pub reload_rules : Option ReloadRulesResponse
  pub list_directory : Option ListDirectoryResponse
  pub stat_file : Option StatFileResponse
  pub rename_file : Option RenameFileResponse
  pub delete_file : Option Bare
  pub chmod_file : Option Bare
  pub copy : Option Bare
  pub paste : Option PasteResponse
  pub create_file : Option CreateFileResponse
  pub create_directory : Option CreateDirectoryResponse
  pub list_places : Option ListPlacesResponse
  pub pin_place : Option Bare
  pub unpin_place : Option Bare
  pub trash_file : Option Bare
  pub list_trash : Option ListTrashResponse
  pub restore_trash : Option Bare
  pub empty_trash : Option Bare
  pub list_apps_for_file : Option ListAppsForFileResponse
  pub open_with_app : Option Bare
  pub get_browser_config : Option GetBrowserConfigResponse
  pub launch_gui : Option LaunchGuiResponse
  pub get_thumbnail : Option GetThumbnailResponse
  pub list_mounts : Option ListMountsResponse
  pub get_file_badges : Option GetFileBadgesResponse
  pub get_file_actions : Option GetFileActionsResponse
  pub run_file_action : Option Bare
  pub pin_search : Option PinSearchResponse
  pub unpin_search : Option Bare
  pub list_saved_searches : Option ListSavedSearchesResponse
  pub shutdown : Option Bare
  pub reindex_file : Option Bare

-- `new Response()`: every property has the default of the prototype.
abbrev pub empty : Response
empty = record {
  error = none;
  search = none;
  list_tags = none;
  hydrate_tags = none;
  related = none;
  glob_search = none;
  tag = none;
  metadata = none;
  status = none;
  reload_rules = none;
  list_directory = none;
  stat_file = none;
  rename_file = none;
  delete_file = none;
  chmod_file = none;
  copy = none;
  paste = none;
  create_file = none;
  create_directory = none;
  list_places = none;
  pin_place = none;
  unpin_place = none;
  trash_file = none;
  list_trash = none;
  restore_trash = none;
  empty_trash = none;
  list_apps_for_file = none;
  open_with_app = none;
  get_browser_config = none;
  launch_gui = none;
  get_thumbnail = none;
  list_mounts = none;
  get_file_badges = none;
  get_file_actions = none;
  run_file_action = none;
  pin_search = none;
  unpin_search = none;
  list_saved_searches = none;
  shutdown = none;
  reindex_file = none;
}
