-- ===== src/Ipc/Request/RoundTrip.antt =====
-- What `Request.encode` writes is what `Request.decode` reads.
use tilbo.Prelude.{refl, some, arith, Given}
use tilbo.Runtime.{Runtime}
use tilbo.Runtime.Laws.{Laws}
use tilbo.Codec.{or_create}
use tilbo.Codec.Carries.{Carries}
use tilbo.Codec.Parts.{◌⨟◌}
use tilbo.Codec.Scalars.{Given-map, Given-intro, message-Carries}
use tilbo.Ipc.Bare
use tilbo.Ipc.Bare.{Bare}
use tilbo.Ipc.ChmodFileRequest
use tilbo.Ipc.ChmodFileRequest.{ChmodFileRequest}
use tilbo.Ipc.CopyRequest
use tilbo.Ipc.CopyRequest.{CopyRequest}
use tilbo.Ipc.CreateDirectoryRequest
use tilbo.Ipc.CreateDirectoryRequest.{CreateDirectoryRequest}
use tilbo.Ipc.CreateFileRequest
use tilbo.Ipc.CreateFileRequest.{CreateFileRequest}
use tilbo.Ipc.DeleteFileRequest
use tilbo.Ipc.DeleteFileRequest.{DeleteFileRequest}
use tilbo.Ipc.GetFileActionsRequest
use tilbo.Ipc.GetFileActionsRequest.{GetFileActionsRequest}
use tilbo.Ipc.GetFileBadgesRequest
use tilbo.Ipc.GetFileBadgesRequest.{GetFileBadgesRequest}
use tilbo.Ipc.GetThumbnailRequest
use tilbo.Ipc.GetThumbnailRequest.{GetThumbnailRequest}
use tilbo.Ipc.GlobSearchRequest
use tilbo.Ipc.GlobSearchRequest.{GlobSearchRequest}
use tilbo.Ipc.HydrateTagsRequest
use tilbo.Ipc.HydrateTagsRequest.{HydrateTagsRequest}
use tilbo.Ipc.LaunchGuiRequest
use tilbo.Ipc.LaunchGuiRequest.{LaunchGuiRequest}
use tilbo.Ipc.ListAppsForFileRequest
use tilbo.Ipc.ListAppsForFileRequest.{ListAppsForFileRequest}
use tilbo.Ipc.ListDirectoryRequest
use tilbo.Ipc.ListDirectoryRequest.{ListDirectoryRequest}
use tilbo.Ipc.ListTagsRequest
use tilbo.Ipc.ListTagsRequest.{ListTagsRequest}
use tilbo.Ipc.MetadataRequest
use tilbo.Ipc.MetadataRequest.{MetadataRequest}
use tilbo.Ipc.MetadataSetRequest
use tilbo.Ipc.MetadataSetRequest.{MetadataSetRequest}
use tilbo.Ipc.OpenWithAppRequest
use tilbo.Ipc.OpenWithAppRequest.{OpenWithAppRequest}
use tilbo.Ipc.PasteRequest
use tilbo.Ipc.PasteRequest.{PasteRequest}
use tilbo.Ipc.PinPlaceRequest
use tilbo.Ipc.PinPlaceRequest.{PinPlaceRequest}
use tilbo.Ipc.PinSearchRequest
use tilbo.Ipc.PinSearchRequest.{PinSearchRequest}
use tilbo.Ipc.ReindexFileRequest
use tilbo.Ipc.ReindexFileRequest.{ReindexFileRequest}
use tilbo.Ipc.RelatedRequest
use tilbo.Ipc.RelatedRequest.{RelatedRequest}
use tilbo.Ipc.RenameFileRequest
use tilbo.Ipc.RenameFileRequest.{RenameFileRequest}
use tilbo.Ipc.RestoreTrashRequest
use tilbo.Ipc.RestoreTrashRequest.{RestoreTrashRequest}
use tilbo.Ipc.RunFileActionRequest
use tilbo.Ipc.RunFileActionRequest.{RunFileActionRequest}
use tilbo.Ipc.SearchRequest
use tilbo.Ipc.SearchRequest.{SearchRequest}
use tilbo.Ipc.StatFileRequest
use tilbo.Ipc.StatFileRequest.{StatFileRequest}
use tilbo.Ipc.TagRequest
use tilbo.Ipc.TagRequest.{TagRequest}
use tilbo.Ipc.TrashFileRequest
use tilbo.Ipc.TrashFileRequest.{TrashFileRequest}
use tilbo.Ipc.UnpinPlaceRequest
use tilbo.Ipc.UnpinPlaceRequest.{UnpinPlaceRequest}
use tilbo.Ipc.UnpinSearchRequest
use tilbo.Ipc.UnpinSearchRequest.{UnpinSearchRequest}
use tilbo.Ipc.Request.Message.{Request, empty}
use tilbo.Ipc.Request.Encode.{encode}
use tilbo.Ipc.Request.Decode.{decode_field}

-- The nested messages are valid.
pub record IsValid {rt : Runtime} (laws : Laws rt) (m : Request) : Type 0 where
  pub search : Given (λ x. SearchRequest.IsValid x) m.search
  pub tag : Given (λ x. TagRequest.IsValid x) m.tag
  pub related : Given (λ x. RelatedRequest.IsValid laws x) m.related
  pub glob_search : Given (λ x. GlobSearchRequest.IsValid x) m.glob_search
  pub chmod_file : Given (λ x. ChmodFileRequest.IsValid x) m.chmod_file
  pub get_thumbnail : Given (λ x. GetThumbnailRequest.IsValid x) m.get_thumbnail

module _ (rt : Runtime) (laws : Laws rt) where
  -- What `encode` writes, `decode` reads back from a new message.
  pub encode-Carries :
      (m : Request)
      → IsValid laws m
      → Carries rt laws (λ w. encode rt m (some w)) (decode_field rt) empty m
  unfolding encode decode_field or_create
  encode-Carries m v =
      let m1 : Request = record empty { search = m.search } in
      let m2 : Request = record m1 { tag = m.tag } in
      let m3 : Request = record m2 { metadata = m.metadata } in
      let m4 : Request = record m3 { metadata_set = m.metadata_set } in
      let m5 : Request = record m4 { related = m.related } in
      let m6 : Request = record m5 { status = m.status } in
      let m7 : Request = record m6 { reload_rules = m.reload_rules } in
      let m8 : Request = record m7 { list_tags = m.list_tags } in
      let m9 : Request = record m8 { hydrate_tags = m.hydrate_tags } in
      let m10 : Request = record m9 { list_directory = m.list_directory } in
      let m11 : Request = record m10 { stat_file = m.stat_file } in
      let m12 : Request = record m11 { glob_search = m.glob_search } in
      let m13 : Request = record m12 { rename_file = m.rename_file } in
      let m14 : Request = record m13 { delete_file = m.delete_file } in
      let m15 : Request = record m14 { chmod_file = m.chmod_file } in
      let m16 : Request = record m15 { list_places = m.list_places } in
      let m17 : Request = record m16 { pin_place = m.pin_place } in
      let m18 : Request = record m17 { unpin_place = m.unpin_place } in
      let m19 : Request = record m18 { trash_file = m.trash_file } in
      let m20 : Request = record m19 { list_trash = m.list_trash } in
      let m21 : Request = record m20 { restore_trash = m.restore_trash } in
      let m22 : Request = record m21 { empty_trash = m.empty_trash } in
      let m23 : Request = record m22 { list_apps_for_file = m.list_apps_for_file } in
      let m24 : Request = record m23 { open_with_app = m.open_with_app } in
      let m25 : Request = record m24 { get_browser_config = m.get_browser_config } in
      let m26 : Request = record m25 { get_file_badges = m.get_file_badges } in
      let m27 : Request = record m26 { get_file_actions = m.get_file_actions } in
      let m28 : Request = record m27 { run_file_action = m.run_file_action } in
      let m29 : Request = record m28 { launch_gui = m.launch_gui } in
      let m30 : Request = record m29 { get_thumbnail = m.get_thumbnail } in
      let m31 : Request = record m30 { copy = m.copy } in
      let m32 : Request = record m31 { paste = m.paste } in
      let m33 : Request = record m32 { create_file = m.create_file } in
      let m34 : Request = record m33 { create_directory = m.create_directory } in
      let m35 : Request = record m34 { list_mounts = m.list_mounts } in
      let m36 : Request = record m35 { pin_search = m.pin_search } in
      let m37 : Request = record m36 { unpin_search = m.unpin_search } in
      let m38 : Request = record m37 { list_saved_searches = m.list_saved_searches } in
      let m39 : Request = record m38 { shutdown = m.shutdown } in
      message-Carries 10 (omega arith) _ _ (SearchRequest.encode rt)
        (λ x. record empty { search = x }) m.search refl
        (Given-map (SearchRequest.encode-Carries rt laws) m.search v.search)
      ⨟ message-Carries 18 (omega arith) _ _ (TagRequest.encode rt) (λ x. record m1 { tag = x })
          m.tag refl (Given-map (TagRequest.encode-Carries rt laws) m.tag v.tag)
      ⨟ message-Carries 26 (omega arith) _ _ (MetadataRequest.encode rt)
          (λ x. record m2 { metadata = x }) m.metadata refl
          (Given-intro (MetadataRequest.encode-Carries rt laws) m.metadata)
      ⨟ message-Carries 34 (omega arith) _ _ (MetadataSetRequest.encode rt)
          (λ x. record m3 { metadata_set = x }) m.metadata_set refl
          (Given-intro (MetadataSetRequest.encode-Carries rt laws) m.metadata_set)
      ⨟ message-Carries 42 (omega arith) _ _ (RelatedRequest.encode rt)
          (λ x. record m4 { related = x }) m.related refl
          (Given-map (RelatedRequest.encode-Carries rt laws) m.related v.related)
      ⨟ message-Carries 50 (omega arith) _ _ (Bare.encode rt) (λ x. record m5 { status = x })
          m.status refl (Given-intro (Bare.encode-Carries rt laws) m.status)
      ⨟ message-Carries 58 (omega arith) _ _ (Bare.encode rt) (λ x. record m6 { reload_rules = x })
          m.reload_rules refl (Given-intro (Bare.encode-Carries rt laws) m.reload_rules)
      ⨟ message-Carries 66 (omega arith) _ _ (ListTagsRequest.encode rt)
          (λ x. record m7 { list_tags = x }) m.list_tags refl
          (Given-intro (ListTagsRequest.encode-Carries rt laws) m.list_tags)
      ⨟ message-Carries 74 (omega arith) _ _ (HydrateTagsRequest.encode rt)
          (λ x. record m8 { hydrate_tags = x }) m.hydrate_tags refl
          (Given-intro (HydrateTagsRequest.encode-Carries rt laws) m.hydrate_tags)
      ⨟ message-Carries 82 (omega arith) _ _ (ListDirectoryRequest.encode rt)
          (λ x. record m9 { list_directory = x }) m.list_directory refl
          (Given-intro (ListDirectoryRequest.encode-Carries rt laws) m.list_directory)
      ⨟ message-Carries 90 (omega arith) _ _ (StatFileRequest.encode rt)
          (λ x. record m10 { stat_file = x }) m.stat_file refl
          (Given-intro (StatFileRequest.encode-Carries rt laws) m.stat_file)
      ⨟ message-Carries 98 (omega arith) _ _ (GlobSearchRequest.encode rt)
          (λ x. record m11 { glob_search = x }) m.glob_search refl
          (Given-map (GlobSearchRequest.encode-Carries rt laws) m.glob_search v.glob_search)
      ⨟ message-Carries 106 (omega arith) _ _ (RenameFileRequest.encode rt)
          (λ x. record m12 { rename_file = x }) m.rename_file refl
          (Given-intro (RenameFileRequest.encode-Carries rt laws) m.rename_file)
      ⨟ message-Carries 114 (omega arith) _ _ (DeleteFileRequest.encode rt)
          (λ x. record m13 { delete_file = x }) m.delete_file refl
          (Given-intro (DeleteFileRequest.encode-Carries rt laws) m.delete_file)
      ⨟ message-Carries 122 (omega arith) _ _ (ChmodFileRequest.encode rt)
          (λ x. record m14 { chmod_file = x }) m.chmod_file refl
          (Given-map (ChmodFileRequest.encode-Carries rt laws) m.chmod_file v.chmod_file)
      ⨟ message-Carries 130 (omega arith) _ _ (Bare.encode rt) (λ x. record m15 { list_places = x })
          m.list_places refl (Given-intro (Bare.encode-Carries rt laws) m.list_places)
      ⨟ message-Carries 138 (omega arith) _ _ (PinPlaceRequest.encode rt)
          (λ x. record m16 { pin_place = x }) m.pin_place refl
          (Given-intro (PinPlaceRequest.encode-Carries rt laws) m.pin_place)
      ⨟ message-Carries 146 (omega arith) _ _ (UnpinPlaceRequest.encode rt)
          (λ x. record m17 { unpin_place = x }) m.unpin_place refl
          (Given-intro (UnpinPlaceRequest.encode-Carries rt laws) m.unpin_place)
      ⨟ message-Carries 154 (omega arith) _ _ (TrashFileRequest.encode rt)
          (λ x. record m18 { trash_file = x }) m.trash_file refl
          (Given-intro (TrashFileRequest.encode-Carries rt laws) m.trash_file)
      ⨟ message-Carries 162 (omega arith) _ _ (Bare.encode rt) (λ x. record m19 { list_trash = x })
          m.list_trash refl (Given-intro (Bare.encode-Carries rt laws) m.list_trash)
      ⨟ message-Carries 170 (omega arith) _ _ (RestoreTrashRequest.encode rt)
          (λ x. record m20 { restore_trash = x }) m.restore_trash refl
          (Given-intro (RestoreTrashRequest.encode-Carries rt laws) m.restore_trash)
      ⨟ message-Carries 178 (omega arith) _ _ (Bare.encode rt) (λ x. record m21 { empty_trash = x })
          m.empty_trash refl (Given-intro (Bare.encode-Carries rt laws) m.empty_trash)
      ⨟ message-Carries 186 (omega arith) _ _ (ListAppsForFileRequest.encode rt)
          (λ x. record m22 { list_apps_for_file = x }) m.list_apps_for_file refl
          (Given-intro (ListAppsForFileRequest.encode-Carries rt laws) m.list_apps_for_file)
      ⨟ message-Carries 194 (omega arith) _ _ (OpenWithAppRequest.encode rt)
          (λ x. record m23 { open_with_app = x }) m.open_with_app refl
          (Given-intro (OpenWithAppRequest.encode-Carries rt laws) m.open_with_app)
      ⨟ message-Carries 202 (omega arith) _ _ (Bare.encode rt)
          (λ x. record m24 { get_browser_config = x }) m.get_browser_config refl
          (Given-intro (Bare.encode-Carries rt laws) m.get_browser_config)
      ⨟ message-Carries 210 (omega arith) _ _ (GetFileBadgesRequest.encode rt)
          (λ x. record m25 { get_file_badges = x }) m.get_file_badges refl
          (Given-intro (GetFileBadgesRequest.encode-Carries rt laws) m.get_file_badges)
      ⨟ message-Carries 218 (omega arith) _ _ (GetFileActionsRequest.encode rt)
          (λ x. record m26 { get_file_actions = x }) m.get_file_actions refl
          (Given-intro (GetFileActionsRequest.encode-Carries rt laws) m.get_file_actions)
      ⨟ message-Carries 226 (omega arith) _ _ (RunFileActionRequest.encode rt)
          (λ x. record m27 { run_file_action = x }) m.run_file_action refl
          (Given-intro (RunFileActionRequest.encode-Carries rt laws) m.run_file_action)
      ⨟ message-Carries 234 (omega arith) _ _ (LaunchGuiRequest.encode rt)
          (λ x. record m28 { launch_gui = x }) m.launch_gui refl
          (Given-intro (LaunchGuiRequest.encode-Carries rt laws) m.launch_gui)
      ⨟ message-Carries 242 (omega arith) _ _ (GetThumbnailRequest.encode rt)
          (λ x. record m29 { get_thumbnail = x }) m.get_thumbnail refl
          (Given-map (GetThumbnailRequest.encode-Carries rt laws) m.get_thumbnail v.get_thumbnail)
      ⨟ message-Carries 250 (omega arith) _ _ (CopyRequest.encode rt) (λ x. record m30 { copy = x })
          m.copy refl (Given-intro (CopyRequest.encode-Carries rt laws) m.copy)
      ⨟ message-Carries 258 (omega arith) _ _ (PasteRequest.encode rt)
          (λ x. record m31 { paste = x }) m.paste refl
          (Given-intro (PasteRequest.encode-Carries rt laws) m.paste)
      ⨟ message-Carries 266 (omega arith) _ _ (CreateFileRequest.encode rt)
          (λ x. record m32 { create_file = x }) m.create_file refl
          (Given-intro (CreateFileRequest.encode-Carries rt laws) m.create_file)
      ⨟ message-Carries 274 (omega arith) _ _ (CreateDirectoryRequest.encode rt)
          (λ x. record m33 { create_directory = x }) m.create_directory refl
          (Given-intro (CreateDirectoryRequest.encode-Carries rt laws) m.create_directory)
      ⨟ message-Carries 282 (omega arith) _ _ (Bare.encode rt) (λ x. record m34 { list_mounts = x })
          m.list_mounts refl (Given-intro (Bare.encode-Carries rt laws) m.list_mounts)
      ⨟ message-Carries 290 (omega arith) _ _ (PinSearchRequest.encode rt)
          (λ x. record m35 { pin_search = x }) m.pin_search refl
          (Given-intro (PinSearchRequest.encode-Carries rt laws) m.pin_search)
      ⨟ message-Carries 298 (omega arith) _ _ (UnpinSearchRequest.encode rt)
          (λ x. record m36 { unpin_search = x }) m.unpin_search refl
          (Given-intro (UnpinSearchRequest.encode-Carries rt laws) m.unpin_search)
      ⨟ message-Carries 306 (omega arith) _ _ (Bare.encode rt)
          (λ x. record m37 { list_saved_searches = x }) m.list_saved_searches refl
          (Given-intro (Bare.encode-Carries rt laws) m.list_saved_searches)
      ⨟ message-Carries 314 (omega arith) _ _ (Bare.encode rt) (λ x. record m38 { shutdown = x })
          m.shutdown refl (Given-intro (Bare.encode-Carries rt laws) m.shutdown)
      ⨟ message-Carries 322 (omega arith) _ _ (ReindexFileRequest.encode rt)
          (λ x. record m39 { reindex_file = x }) m.reindex_file refl
          (Given-intro (ReindexFileRequest.encode-Carries rt laws) m.reindex_file)
