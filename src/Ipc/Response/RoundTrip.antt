-- ===== src/Ipc/Response/RoundTrip.antt =====
-- What `Response.encode` writes is what `Response.decode` reads.
use tilbo.Prelude.{refl, some, arith, Given}
use tilbo.Runtime.{Runtime}
use tilbo.Runtime.Laws.{Laws}
use tilbo.Codec.{or_create}
use tilbo.Codec.Carries.{Carries}
use tilbo.Codec.Parts.{◌⨟◌}
use tilbo.Codec.Scalars.{Given-map, Given-intro, message-Carries}
use tilbo.Ipc.Bare
use tilbo.Ipc.Bare.{Bare}
use tilbo.Ipc.CreateDirectoryResponse
use tilbo.Ipc.CreateDirectoryResponse.{CreateDirectoryResponse}
use tilbo.Ipc.CreateFileResponse
use tilbo.Ipc.CreateFileResponse.{CreateFileResponse}
use tilbo.Ipc.ErrorResponse
use tilbo.Ipc.ErrorResponse.{ErrorResponse}
use tilbo.Ipc.GetBrowserConfigResponse
use tilbo.Ipc.GetBrowserConfigResponse.{GetBrowserConfigResponse}
use tilbo.Ipc.GetFileActionsResponse
use tilbo.Ipc.GetFileActionsResponse.{GetFileActionsResponse}
use tilbo.Ipc.GetFileBadgesResponse
use tilbo.Ipc.GetFileBadgesResponse.{GetFileBadgesResponse}
use tilbo.Ipc.GetThumbnailResponse
use tilbo.Ipc.GetThumbnailResponse.{GetThumbnailResponse}
use tilbo.Ipc.GlobSearchResponse
use tilbo.Ipc.GlobSearchResponse.{GlobSearchResponse}
use tilbo.Ipc.HydrateTagsResponse
use tilbo.Ipc.HydrateTagsResponse.{HydrateTagsResponse}
use tilbo.Ipc.LaunchGuiResponse
use tilbo.Ipc.LaunchGuiResponse.{LaunchGuiResponse}
use tilbo.Ipc.ListAppsForFileResponse
use tilbo.Ipc.ListAppsForFileResponse.{ListAppsForFileResponse}
use tilbo.Ipc.ListDirectoryResponse
use tilbo.Ipc.ListDirectoryResponse.{ListDirectoryResponse}
use tilbo.Ipc.ListMountsResponse
use tilbo.Ipc.ListMountsResponse.{ListMountsResponse}
use tilbo.Ipc.ListPlacesResponse
use tilbo.Ipc.ListPlacesResponse.{ListPlacesResponse}
use tilbo.Ipc.ListSavedSearchesResponse
use tilbo.Ipc.ListSavedSearchesResponse.{ListSavedSearchesResponse}
use tilbo.Ipc.ListTagsResponse
use tilbo.Ipc.ListTagsResponse.{ListTagsResponse}
use tilbo.Ipc.ListTrashResponse
use tilbo.Ipc.ListTrashResponse.{ListTrashResponse}
use tilbo.Ipc.MetadataResponse
use tilbo.Ipc.MetadataResponse.{MetadataResponse}
use tilbo.Ipc.PasteResponse
use tilbo.Ipc.PasteResponse.{PasteResponse}
use tilbo.Ipc.PinSearchResponse
use tilbo.Ipc.PinSearchResponse.{PinSearchResponse}
use tilbo.Ipc.RelatedResponse
use tilbo.Ipc.RelatedResponse.{RelatedResponse}
use tilbo.Ipc.ReloadRulesResponse
use tilbo.Ipc.ReloadRulesResponse.{ReloadRulesResponse}
use tilbo.Ipc.RenameFileResponse
use tilbo.Ipc.RenameFileResponse.{RenameFileResponse}
use tilbo.Ipc.SearchResponse
use tilbo.Ipc.SearchResponse.{SearchResponse}
use tilbo.Ipc.StatFileResponse
use tilbo.Ipc.StatFileResponse.{StatFileResponse}
use tilbo.Ipc.StatusResponse
use tilbo.Ipc.StatusResponse.{StatusResponse}
use tilbo.Ipc.TagResponse
use tilbo.Ipc.TagResponse.{TagResponse}
use tilbo.Ipc.Response.Message.{Response, empty}
use tilbo.Ipc.Response.Encode.{encode}
use tilbo.Ipc.Response.Decode.{decode_field}

-- The nested messages are valid.
pub record IsValid {rt : Runtime} (laws : Laws rt) (m : Response) : Type 0 where
  pub error : Given (λ x. ErrorResponse.IsValid x) m.error
  pub search : Given (λ x. SearchResponse.IsValid laws x) m.search
  pub tag : Given (λ x. TagResponse.IsValid x) m.tag
  pub metadata : Given (λ x. MetadataResponse.IsValid x) m.metadata
  pub related : Given (λ x. RelatedResponse.IsValid laws x) m.related
  pub status : Given (λ x. StatusResponse.IsValid laws x) m.status
  pub reload_rules : Given (λ x. ReloadRulesResponse.IsValid x) m.reload_rules
  pub list_directory : Given (λ x. ListDirectoryResponse.IsValid x) m.list_directory
  pub stat_file : Given (λ x. StatFileResponse.IsValid x) m.stat_file
  pub glob_search : Given (λ x. GlobSearchResponse.IsValid laws x) m.glob_search
  pub list_trash : Given (λ x. ListTrashResponse.IsValid x) m.list_trash
  pub get_browser_config : Given (λ x. GetBrowserConfigResponse.IsValid x) m.get_browser_config
  pub get_thumbnail : Given (λ x. GetThumbnailResponse.IsValid x) m.get_thumbnail

module _ (rt : Runtime) (laws : Laws rt) where
  -- What `encode` writes, `decode` reads back from a new message.
  pub encode-Carries :
      (m : Response)
      → IsValid laws m
      → Carries rt laws (λ w. encode rt m (some w)) (decode_field rt) empty m
  unfolding encode decode_field or_create
  encode-Carries m v =
      let m1 : Response = record empty { error = m.error } in
      let m2 : Response = record m1 { search = m.search } in
      let m3 : Response = record m2 { tag = m.tag } in
      let m4 : Response = record m3 { metadata = m.metadata } in
      let m5 : Response = record m4 { related = m.related } in
      let m6 : Response = record m5 { status = m.status } in
      let m7 : Response = record m6 { reload_rules = m.reload_rules } in
      let m8 : Response = record m7 { list_tags = m.list_tags } in
      let m9 : Response = record m8 { hydrate_tags = m.hydrate_tags } in
      let m10 : Response = record m9 { list_directory = m.list_directory } in
      let m11 : Response = record m10 { stat_file = m.stat_file } in
      let m12 : Response = record m11 { glob_search = m.glob_search } in
      let m13 : Response = record m12 { rename_file = m.rename_file } in
      let m14 : Response = record m13 { delete_file = m.delete_file } in
      let m15 : Response = record m14 { chmod_file = m.chmod_file } in
      let m16 : Response = record m15 { list_places = m.list_places } in
      let m17 : Response = record m16 { pin_place = m.pin_place } in
      let m18 : Response = record m17 { unpin_place = m.unpin_place } in
      let m19 : Response = record m18 { trash_file = m.trash_file } in
      let m20 : Response = record m19 { list_trash = m.list_trash } in
      let m21 : Response = record m20 { restore_trash = m.restore_trash } in
      let m22 : Response = record m21 { empty_trash = m.empty_trash } in
      let m23 : Response = record m22 { list_apps_for_file = m.list_apps_for_file } in
      let m24 : Response = record m23 { open_with_app = m.open_with_app } in
      let m25 : Response = record m24 { get_browser_config = m.get_browser_config } in
      let m26 : Response = record m25 { get_file_badges = m.get_file_badges } in
      let m27 : Response = record m26 { get_file_actions = m.get_file_actions } in
      let m28 : Response = record m27 { run_file_action = m.run_file_action } in
      let m29 : Response = record m28 { launch_gui = m.launch_gui } in
      let m30 : Response = record m29 { get_thumbnail = m.get_thumbnail } in
      let m31 : Response = record m30 { copy = m.copy } in
      let m32 : Response = record m31 { paste = m.paste } in
      let m33 : Response = record m32 { create_file = m.create_file } in
      let m34 : Response = record m33 { create_directory = m.create_directory } in
      let m35 : Response = record m34 { list_mounts = m.list_mounts } in
      let m36 : Response = record m35 { pin_search = m.pin_search } in
      let m37 : Response = record m36 { unpin_search = m.unpin_search } in
      let m38 : Response = record m37 { list_saved_searches = m.list_saved_searches } in
      let m39 : Response = record m38 { shutdown = m.shutdown } in
      message-Carries 10 (omega arith) _ _ (ErrorResponse.encode rt)
        (λ x. record empty { error = x }) m.error refl
        (Given-map (ErrorResponse.encode-Carries rt laws) m.error v.error)
      ⨟ message-Carries 18 (omega arith) _ _ (SearchResponse.encode rt)
          (λ x. record m1 { search = x }) m.search refl
          (Given-map (SearchResponse.encode-Carries rt laws) m.search v.search)
      ⨟ message-Carries 26 (omega arith) _ _ (TagResponse.encode rt) (λ x. record m2 { tag = x })
          m.tag refl (Given-map (TagResponse.encode-Carries rt laws) m.tag v.tag)
      ⨟ message-Carries 34 (omega arith) _ _ (MetadataResponse.encode rt)
          (λ x. record m3 { metadata = x }) m.metadata refl
          (Given-map (MetadataResponse.encode-Carries rt laws) m.metadata v.metadata)
      ⨟ message-Carries 42 (omega arith) _ _ (RelatedResponse.encode rt)
          (λ x. record m4 { related = x }) m.related refl
          (Given-map (RelatedResponse.encode-Carries rt laws) m.related v.related)
      ⨟ message-Carries 50 (omega arith) _ _ (StatusResponse.encode rt)
          (λ x. record m5 { status = x }) m.status refl
          (Given-map (StatusResponse.encode-Carries rt laws) m.status v.status)
      ⨟ message-Carries 58 (omega arith) _ _ (ReloadRulesResponse.encode rt)
          (λ x. record m6 { reload_rules = x }) m.reload_rules refl
          (Given-map (ReloadRulesResponse.encode-Carries rt laws) m.reload_rules v.reload_rules)
      ⨟ message-Carries 66 (omega arith) _ _ (ListTagsResponse.encode rt)
          (λ x. record m7 { list_tags = x }) m.list_tags refl
          (Given-intro (ListTagsResponse.encode-Carries rt laws) m.list_tags)
      ⨟ message-Carries 74 (omega arith) _ _ (HydrateTagsResponse.encode rt)
          (λ x. record m8 { hydrate_tags = x }) m.hydrate_tags refl
          (Given-intro (HydrateTagsResponse.encode-Carries rt laws) m.hydrate_tags)
      ⨟ message-Carries 82 (omega arith) _ _ (ListDirectoryResponse.encode rt)
          (λ x. record m9 { list_directory = x }) m.list_directory refl
          (Given-map (ListDirectoryResponse.encode-Carries rt laws) m.list_directory
            v.list_directory)
      ⨟ message-Carries 90 (omega arith) _ _ (StatFileResponse.encode rt)
          (λ x. record m10 { stat_file = x }) m.stat_file refl
          (Given-map (StatFileResponse.encode-Carries rt laws) m.stat_file v.stat_file)
      ⨟ message-Carries 98 (omega arith) _ _ (GlobSearchResponse.encode rt)
          (λ x. record m11 { glob_search = x }) m.glob_search refl
          (Given-map (GlobSearchResponse.encode-Carries rt laws) m.glob_search v.glob_search)
      ⨟ message-Carries 106 (omega arith) _ _ (RenameFileResponse.encode rt)
          (λ x. record m12 { rename_file = x }) m.rename_file refl
          (Given-intro (RenameFileResponse.encode-Carries rt laws) m.rename_file)
      ⨟ message-Carries 114 (omega arith) _ _ (Bare.encode rt) (λ x. record m13 { delete_file = x })
          m.delete_file refl (Given-intro (Bare.encode-Carries rt laws) m.delete_file)
      ⨟ message-Carries 122 (omega arith) _ _ (Bare.encode rt) (λ x. record m14 { chmod_file = x })
          m.chmod_file refl (Given-intro (Bare.encode-Carries rt laws) m.chmod_file)
      ⨟ message-Carries 130 (omega arith) _ _ (ListPlacesResponse.encode rt)
          (λ x. record m15 { list_places = x }) m.list_places refl
          (Given-intro (ListPlacesResponse.encode-Carries rt laws) m.list_places)
      ⨟ message-Carries 138 (omega arith) _ _ (Bare.encode rt) (λ x. record m16 { pin_place = x })
          m.pin_place refl (Given-intro (Bare.encode-Carries rt laws) m.pin_place)
      ⨟ message-Carries 146 (omega arith) _ _ (Bare.encode rt) (λ x. record m17 { unpin_place = x })
          m.unpin_place refl (Given-intro (Bare.encode-Carries rt laws) m.unpin_place)
      ⨟ message-Carries 154 (omega arith) _ _ (Bare.encode rt) (λ x. record m18 { trash_file = x })
          m.trash_file refl (Given-intro (Bare.encode-Carries rt laws) m.trash_file)
      ⨟ message-Carries 162 (omega arith) _ _ (ListTrashResponse.encode rt)
          (λ x. record m19 { list_trash = x }) m.list_trash refl
          (Given-map (ListTrashResponse.encode-Carries rt laws) m.list_trash v.list_trash)
      ⨟ message-Carries 170 (omega arith) _ _ (Bare.encode rt)
          (λ x. record m20 { restore_trash = x }) m.restore_trash refl
          (Given-intro (Bare.encode-Carries rt laws) m.restore_trash)
      ⨟ message-Carries 178 (omega arith) _ _ (Bare.encode rt) (λ x. record m21 { empty_trash = x })
          m.empty_trash refl (Given-intro (Bare.encode-Carries rt laws) m.empty_trash)
      ⨟ message-Carries 186 (omega arith) _ _ (ListAppsForFileResponse.encode rt)
          (λ x. record m22 { list_apps_for_file = x }) m.list_apps_for_file refl
          (Given-intro (ListAppsForFileResponse.encode-Carries rt laws) m.list_apps_for_file)
      ⨟ message-Carries 194 (omega arith) _ _ (Bare.encode rt)
          (λ x. record m23 { open_with_app = x }) m.open_with_app refl
          (Given-intro (Bare.encode-Carries rt laws) m.open_with_app)
      ⨟ message-Carries 202 (omega arith) _ _ (GetBrowserConfigResponse.encode rt)
          (λ x. record m24 { get_browser_config = x }) m.get_browser_config refl
          (Given-map (GetBrowserConfigResponse.encode-Carries rt laws) m.get_browser_config
            v.get_browser_config)
      ⨟ message-Carries 210 (omega arith) _ _ (GetFileBadgesResponse.encode rt)
          (λ x. record m25 { get_file_badges = x }) m.get_file_badges refl
          (Given-intro (GetFileBadgesResponse.encode-Carries rt laws) m.get_file_badges)
      ⨟ message-Carries 218 (omega arith) _ _ (GetFileActionsResponse.encode rt)
          (λ x. record m26 { get_file_actions = x }) m.get_file_actions refl
          (Given-intro (GetFileActionsResponse.encode-Carries rt laws) m.get_file_actions)
      ⨟ message-Carries 226 (omega arith) _ _ (Bare.encode rt)
          (λ x. record m27 { run_file_action = x }) m.run_file_action refl
          (Given-intro (Bare.encode-Carries rt laws) m.run_file_action)
      ⨟ message-Carries 234 (omega arith) _ _ (LaunchGuiResponse.encode rt)
          (λ x. record m28 { launch_gui = x }) m.launch_gui refl
          (Given-intro (LaunchGuiResponse.encode-Carries rt laws) m.launch_gui)
      ⨟ message-Carries 242 (omega arith) _ _ (GetThumbnailResponse.encode rt)
          (λ x. record m29 { get_thumbnail = x }) m.get_thumbnail refl
          (Given-map (GetThumbnailResponse.encode-Carries rt laws) m.get_thumbnail v.get_thumbnail)
      ⨟ message-Carries 250 (omega arith) _ _ (Bare.encode rt) (λ x. record m30 { copy = x }) m.copy
          refl (Given-intro (Bare.encode-Carries rt laws) m.copy)
      ⨟ message-Carries 258 (omega arith) _ _ (PasteResponse.encode rt)
          (λ x. record m31 { paste = x }) m.paste refl
          (Given-intro (PasteResponse.encode-Carries rt laws) m.paste)
      ⨟ message-Carries 266 (omega arith) _ _ (CreateFileResponse.encode rt)
          (λ x. record m32 { create_file = x }) m.create_file refl
          (Given-intro (CreateFileResponse.encode-Carries rt laws) m.create_file)
      ⨟ message-Carries 274 (omega arith) _ _ (CreateDirectoryResponse.encode rt)
          (λ x. record m33 { create_directory = x }) m.create_directory refl
          (Given-intro (CreateDirectoryResponse.encode-Carries rt laws) m.create_directory)
      ⨟ message-Carries 282 (omega arith) _ _ (ListMountsResponse.encode rt)
          (λ x. record m34 { list_mounts = x }) m.list_mounts refl
          (Given-intro (ListMountsResponse.encode-Carries rt laws) m.list_mounts)
      ⨟ message-Carries 290 (omega arith) _ _ (PinSearchResponse.encode rt)
          (λ x. record m35 { pin_search = x }) m.pin_search refl
          (Given-intro (PinSearchResponse.encode-Carries rt laws) m.pin_search)
      ⨟ message-Carries 298 (omega arith) _ _ (Bare.encode rt)
          (λ x. record m36 { unpin_search = x }) m.unpin_search refl
          (Given-intro (Bare.encode-Carries rt laws) m.unpin_search)
      ⨟ message-Carries 306 (omega arith) _ _ (ListSavedSearchesResponse.encode rt)
          (λ x. record m37 { list_saved_searches = x }) m.list_saved_searches refl
          (Given-intro (ListSavedSearchesResponse.encode-Carries rt laws) m.list_saved_searches)
      ⨟ message-Carries 314 (omega arith) _ _ (Bare.encode rt) (λ x. record m38 { shutdown = x })
          m.shutdown refl (Given-intro (Bare.encode-Carries rt laws) m.shutdown)
      ⨟ message-Carries 322 (omega arith) _ _ (Bare.encode rt)
          (λ x. record m39 { reindex_file = x }) m.reindex_file refl
          (Given-intro (Bare.encode-Carries rt laws) m.reindex_file)
