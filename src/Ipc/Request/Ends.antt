-- ===== src/Ipc/Request/Ends.antt =====
-- Every case of the switch of `Request.decode` ends.
use tilbo.Prelude.{ℕ, ◌/◌, ◌==◌}
use tilbo.Runtime.{Runtime}
use tilbo.Runtime.Laws.{Progress, Moves}
use tilbo.Codec.{sub_message}
use tilbo.Codec.Ends.{◌⟨◌⟩◌, Moves-put, Moves-skip_field, Moves-sub_message}
use tilbo.Ipc.Bare
use tilbo.Ipc.Bare.{Bare}
use tilbo.Ipc.ChmodFileRequest
use tilbo.Ipc.ChmodFileRequest.{ChmodFileRequest}
use tilbo.Ipc.CopyRequest
use tilbo.Ipc.CopyRequest.{CopyRequest}
use tilbo.Ipc.CreateDirectoryRequest
use tilbo.Ipc.CreateDirectoryRequest.{CreateDirectoryRequest}
use tilbo.Ipc.CreateFileRequest
use tilbo.Ipc.CreateFileRequest.{CreateFileRequest}
use tilbo.Ipc.DeleteFileRequest
use tilbo.Ipc.DeleteFileRequest.{DeleteFileRequest}
use tilbo.Ipc.GetFileActionsRequest
use tilbo.Ipc.GetFileActionsRequest.{GetFileActionsRequest}
use tilbo.Ipc.GetFileBadgesRequest
use tilbo.Ipc.GetFileBadgesRequest.{GetFileBadgesRequest}
use tilbo.Ipc.GetThumbnailRequest
use tilbo.Ipc.GetThumbnailRequest.{GetThumbnailRequest}
use tilbo.Ipc.GlobSearchRequest
use tilbo.Ipc.GlobSearchRequest.{GlobSearchRequest}
use tilbo.Ipc.HydrateTagsRequest
use tilbo.Ipc.HydrateTagsRequest.{HydrateTagsRequest}
use tilbo.Ipc.LaunchGuiRequest
use tilbo.Ipc.LaunchGuiRequest.{LaunchGuiRequest}
use tilbo.Ipc.ListAppsForFileRequest
use tilbo.Ipc.ListAppsForFileRequest.{ListAppsForFileRequest}
use tilbo.Ipc.ListDirectoryRequest
use tilbo.Ipc.ListDirectoryRequest.{ListDirectoryRequest}
use tilbo.Ipc.ListTagsRequest
use tilbo.Ipc.ListTagsRequest.{ListTagsRequest}
use tilbo.Ipc.MetadataRequest
use tilbo.Ipc.MetadataRequest.{MetadataRequest}
use tilbo.Ipc.MetadataSetRequest
use tilbo.Ipc.MetadataSetRequest.{MetadataSetRequest}
use tilbo.Ipc.OpenWithAppRequest
use tilbo.Ipc.OpenWithAppRequest.{OpenWithAppRequest}
use tilbo.Ipc.PasteRequest
use tilbo.Ipc.PasteRequest.{PasteRequest}
use tilbo.Ipc.PinPlaceRequest
use tilbo.Ipc.PinPlaceRequest.{PinPlaceRequest}
use tilbo.Ipc.PinSearchRequest
use tilbo.Ipc.PinSearchRequest.{PinSearchRequest}
use tilbo.Ipc.ReindexFileRequest
use tilbo.Ipc.ReindexFileRequest.{ReindexFileRequest}
use tilbo.Ipc.RelatedRequest
use tilbo.Ipc.RelatedRequest.{RelatedRequest}
use tilbo.Ipc.RenameFileRequest
use tilbo.Ipc.RenameFileRequest.{RenameFileRequest}
use tilbo.Ipc.RestoreTrashRequest
use tilbo.Ipc.RestoreTrashRequest.{RestoreTrashRequest}
use tilbo.Ipc.RunFileActionRequest
use tilbo.Ipc.RunFileActionRequest.{RunFileActionRequest}
use tilbo.Ipc.SearchRequest
use tilbo.Ipc.SearchRequest.{SearchRequest}
use tilbo.Ipc.StatFileRequest
use tilbo.Ipc.StatFileRequest.{StatFileRequest}
use tilbo.Ipc.TagRequest
use tilbo.Ipc.TagRequest.{TagRequest}
use tilbo.Ipc.TrashFileRequest
use tilbo.Ipc.TrashFileRequest.{TrashFileRequest}
use tilbo.Ipc.UnpinPlaceRequest
use tilbo.Ipc.UnpinPlaceRequest.{UnpinPlaceRequest}
use tilbo.Ipc.UnpinSearchRequest
use tilbo.Ipc.UnpinSearchRequest.{UnpinSearchRequest}
use tilbo.Ipc.Request.Message.{Request, empty}
use tilbo.Ipc.Request.Decode.{decode_field, decode}

module _ (rt : Runtime) (progress : Progress rt) where
  pub decode_field-Moves : (tag : ℕ) (m : Request) → Moves rt 0 (decode_field rt tag m)
  unfolding decode_field
  decode_field-Moves tag m =
      Moves-put _ (SearchRequest.decode-Moves rt progress)
      ⟨ tag / 8 == 1 ⟩ Moves-put _ (TagRequest.decode-Moves rt progress)
      ⟨ tag / 8 == 2 ⟩ Moves-put _ (MetadataRequest.decode-Moves rt progress)
      ⟨ tag / 8 == 3 ⟩ Moves-put _ (MetadataSetRequest.decode-Moves rt progress)
      ⟨ tag / 8 == 4 ⟩ Moves-put _ (RelatedRequest.decode-Moves rt progress)
      ⟨ tag / 8 == 5 ⟩ Moves-put _ (Bare.decode-Moves rt progress)
      ⟨ tag / 8 == 6 ⟩ Moves-put _ (Bare.decode-Moves rt progress)
      ⟨ tag / 8 == 7 ⟩ Moves-put _ (ListTagsRequest.decode-Moves rt progress)
      ⟨ tag / 8 == 8 ⟩ Moves-put _ (HydrateTagsRequest.decode-Moves rt progress)
      ⟨ tag / 8 == 9 ⟩ Moves-put _ (ListDirectoryRequest.decode-Moves rt progress)
      ⟨ tag / 8 == 10 ⟩ Moves-put _ (StatFileRequest.decode-Moves rt progress)
      ⟨ tag / 8 == 11 ⟩ Moves-put _ (GlobSearchRequest.decode-Moves rt progress)
      ⟨ tag / 8 == 12 ⟩ Moves-put _ (RenameFileRequest.decode-Moves rt progress)
      ⟨ tag / 8 == 13 ⟩ Moves-put _ (DeleteFileRequest.decode-Moves rt progress)
      ⟨ tag / 8 == 14 ⟩ Moves-put _ (ChmodFileRequest.decode-Moves rt progress)
      ⟨ tag / 8 == 15 ⟩ Moves-put _ (Bare.decode-Moves rt progress)
      ⟨ tag / 8 == 16 ⟩ Moves-put _ (PinPlaceRequest.decode-Moves rt progress)
      ⟨ tag / 8 == 17 ⟩ Moves-put _ (UnpinPlaceRequest.decode-Moves rt progress)
      ⟨ tag / 8 == 18 ⟩ Moves-put _ (TrashFileRequest.decode-Moves rt progress)
      ⟨ tag / 8 == 19 ⟩ Moves-put _ (Bare.decode-Moves rt progress)
      ⟨ tag / 8 == 20 ⟩ Moves-put _ (RestoreTrashRequest.decode-Moves rt progress)
      ⟨ tag / 8 == 21 ⟩ Moves-put _ (Bare.decode-Moves rt progress)
      ⟨ tag / 8 == 22 ⟩ Moves-put _ (ListAppsForFileRequest.decode-Moves rt progress)
      ⟨ tag / 8 == 23 ⟩ Moves-put _ (OpenWithAppRequest.decode-Moves rt progress)
      ⟨ tag / 8 == 24 ⟩ Moves-put _ (Bare.decode-Moves rt progress)
      ⟨ tag / 8 == 25 ⟩ Moves-put _ (GetFileBadgesRequest.decode-Moves rt progress)
      ⟨ tag / 8 == 26 ⟩ Moves-put _ (GetFileActionsRequest.decode-Moves rt progress)
      ⟨ tag / 8 == 27 ⟩ Moves-put _ (RunFileActionRequest.decode-Moves rt progress)
      ⟨ tag / 8 == 28 ⟩ Moves-put _ (LaunchGuiRequest.decode-Moves rt progress)
      ⟨ tag / 8 == 29 ⟩ Moves-put _ (GetThumbnailRequest.decode-Moves rt progress)
      ⟨ tag / 8 == 30 ⟩ Moves-put _ (CopyRequest.decode-Moves rt progress)
      ⟨ tag / 8 == 31 ⟩ Moves-put _ (PasteRequest.decode-Moves rt progress)
      ⟨ tag / 8 == 32 ⟩ Moves-put _ (CreateFileRequest.decode-Moves rt progress)
      ⟨ tag / 8 == 33 ⟩ Moves-put _ (CreateDirectoryRequest.decode-Moves rt progress)
      ⟨ tag / 8 == 34 ⟩ Moves-put _ (Bare.decode-Moves rt progress)
      ⟨ tag / 8 == 35 ⟩ Moves-put _ (PinSearchRequest.decode-Moves rt progress)
      ⟨ tag / 8 == 36 ⟩ Moves-put _ (UnpinSearchRequest.decode-Moves rt progress)
      ⟨ tag / 8 == 37 ⟩ Moves-put _ (Bare.decode-Moves rt progress)
      ⟨ tag / 8 == 38 ⟩ Moves-put _ (Bare.decode-Moves rt progress)
      ⟨ tag / 8 == 39 ⟩ Moves-put _ (ReindexFileRequest.decode-Moves rt progress)
      ⟨ tag / 8 == 40 ⟩ Moves-skip_field rt progress tag m

  pub decode-Moves : Moves rt 0 (sub_message rt (decode rt))
  decode-Moves = Moves-sub_message rt progress (decode_field rt) decode_field-Moves empty
