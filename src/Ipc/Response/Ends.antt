-- ===== src/Ipc/Response/Ends.antt =====
-- Every case of the switch of `Response.decode` ends.
use tilbo.Prelude.{ℕ, ◌/◌, ◌==◌}
use tilbo.Runtime.{Runtime}
use tilbo.Runtime.Laws.{Progress, Moves}
use tilbo.Codec.{sub_message}
use tilbo.Codec.Ends.{◌⟨◌⟩◌, Moves-put, Moves-skip_field, Moves-sub_message}
use tilbo.Ipc.Bare
use tilbo.Ipc.Bare.{Bare}
use tilbo.Ipc.CreateDirectoryResponse
use tilbo.Ipc.CreateDirectoryResponse.{CreateDirectoryResponse}
use tilbo.Ipc.CreateFileResponse
use tilbo.Ipc.CreateFileResponse.{CreateFileResponse}
use tilbo.Ipc.ErrorResponse
use tilbo.Ipc.ErrorResponse.{ErrorResponse}
use tilbo.Ipc.GetBrowserConfigResponse
use tilbo.Ipc.GetBrowserConfigResponse.{GetBrowserConfigResponse}
use tilbo.Ipc.GetFileActionsResponse
use tilbo.Ipc.GetFileActionsResponse.{GetFileActionsResponse}
use tilbo.Ipc.GetFileBadgesResponse
use tilbo.Ipc.GetFileBadgesResponse.{GetFileBadgesResponse}
use tilbo.Ipc.GetThumbnailResponse
use tilbo.Ipc.GetThumbnailResponse.{GetThumbnailResponse}
use tilbo.Ipc.GlobSearchResponse
use tilbo.Ipc.GlobSearchResponse.{GlobSearchResponse}
use tilbo.Ipc.HydrateTagsResponse
use tilbo.Ipc.HydrateTagsResponse.{HydrateTagsResponse}
use tilbo.Ipc.LaunchGuiResponse
use tilbo.Ipc.LaunchGuiResponse.{LaunchGuiResponse}
use tilbo.Ipc.ListAppsForFileResponse
use tilbo.Ipc.ListAppsForFileResponse.{ListAppsForFileResponse}
use tilbo.Ipc.ListDirectoryResponse
use tilbo.Ipc.ListDirectoryResponse.{ListDirectoryResponse}
use tilbo.Ipc.ListMountsResponse
use tilbo.Ipc.ListMountsResponse.{ListMountsResponse}
use tilbo.Ipc.ListPlacesResponse
use tilbo.Ipc.ListPlacesResponse.{ListPlacesResponse}
use tilbo.Ipc.ListSavedSearchesResponse
use tilbo.Ipc.ListSavedSearchesResponse.{ListSavedSearchesResponse}
use tilbo.Ipc.ListTagsResponse
use tilbo.Ipc.ListTagsResponse.{ListTagsResponse}
use tilbo.Ipc.ListTrashResponse
use tilbo.Ipc.ListTrashResponse.{ListTrashResponse}
use tilbo.Ipc.MetadataResponse
use tilbo.Ipc.MetadataResponse.{MetadataResponse}
use tilbo.Ipc.PasteResponse
use tilbo.Ipc.PasteResponse.{PasteResponse}
use tilbo.Ipc.PinSearchResponse
use tilbo.Ipc.PinSearchResponse.{PinSearchResponse}
use tilbo.Ipc.RelatedResponse
use tilbo.Ipc.RelatedResponse.{RelatedResponse}
use tilbo.Ipc.ReloadRulesResponse
use tilbo.Ipc.ReloadRulesResponse.{ReloadRulesResponse}
use tilbo.Ipc.RenameFileResponse
use tilbo.Ipc.RenameFileResponse.{RenameFileResponse}
use tilbo.Ipc.SearchResponse
use tilbo.Ipc.SearchResponse.{SearchResponse}
use tilbo.Ipc.StatFileResponse
use tilbo.Ipc.StatFileResponse.{StatFileResponse}
use tilbo.Ipc.StatusResponse
use tilbo.Ipc.StatusResponse.{StatusResponse}
use tilbo.Ipc.TagResponse
use tilbo.Ipc.TagResponse.{TagResponse}
use tilbo.Ipc.Response.Message.{Response, empty}
use tilbo.Ipc.Response.Decode.{decode_field, decode}

module _ (rt : Runtime) (progress : Progress rt) where
  pub decode_field-Moves : (tag : ℕ) (m : Response) → Moves rt 0 (decode_field rt tag m)
  unfolding decode_field
  decode_field-Moves tag m =
      Moves-put _ (ErrorResponse.decode-Moves rt progress)
      ⟨ tag / 8 == 1 ⟩ Moves-put _ (SearchResponse.decode-Moves rt progress)
      ⟨ tag / 8 == 2 ⟩ Moves-put _ (TagResponse.decode-Moves rt progress)
      ⟨ tag / 8 == 3 ⟩ Moves-put _ (MetadataResponse.decode-Moves rt progress)
      ⟨ tag / 8 == 4 ⟩ Moves-put _ (RelatedResponse.decode-Moves rt progress)
      ⟨ tag / 8 == 5 ⟩ Moves-put _ (StatusResponse.decode-Moves rt progress)
      ⟨ tag / 8 == 6 ⟩ Moves-put _ (ReloadRulesResponse.decode-Moves rt progress)
      ⟨ tag / 8 == 7 ⟩ Moves-put _ (ListTagsResponse.decode-Moves rt progress)
      ⟨ tag / 8 == 8 ⟩ Moves-put _ (HydrateTagsResponse.decode-Moves rt progress)
      ⟨ tag / 8 == 9 ⟩ Moves-put _ (ListDirectoryResponse.decode-Moves rt progress)
      ⟨ tag / 8 == 10 ⟩ Moves-put _ (StatFileResponse.decode-Moves rt progress)
      ⟨ tag / 8 == 11 ⟩ Moves-put _ (GlobSearchResponse.decode-Moves rt progress)
      ⟨ tag / 8 == 12 ⟩ Moves-put _ (RenameFileResponse.decode-Moves rt progress)
      ⟨ tag / 8 == 13 ⟩ Moves-put _ (Bare.decode-Moves rt progress)
      ⟨ tag / 8 == 14 ⟩ Moves-put _ (Bare.decode-Moves rt progress)
      ⟨ tag / 8 == 15 ⟩ Moves-put _ (ListPlacesResponse.decode-Moves rt progress)
      ⟨ tag / 8 == 16 ⟩ Moves-put _ (Bare.decode-Moves rt progress)
      ⟨ tag / 8 == 17 ⟩ Moves-put _ (Bare.decode-Moves rt progress)
      ⟨ tag / 8 == 18 ⟩ Moves-put _ (Bare.decode-Moves rt progress)
      ⟨ tag / 8 == 19 ⟩ Moves-put _ (ListTrashResponse.decode-Moves rt progress)
      ⟨ tag / 8 == 20 ⟩ Moves-put _ (Bare.decode-Moves rt progress)
      ⟨ tag / 8 == 21 ⟩ Moves-put _ (Bare.decode-Moves rt progress)
      ⟨ tag / 8 == 22 ⟩ Moves-put _ (ListAppsForFileResponse.decode-Moves rt progress)
      ⟨ tag / 8 == 23 ⟩ Moves-put _ (Bare.decode-Moves rt progress)
      ⟨ tag / 8 == 24 ⟩ Moves-put _ (GetBrowserConfigResponse.decode-Moves rt progress)
      ⟨ tag / 8 == 25 ⟩ Moves-put _ (GetFileBadgesResponse.decode-Moves rt progress)
      ⟨ tag / 8 == 26 ⟩ Moves-put _ (GetFileActionsResponse.decode-Moves rt progress)
      ⟨ tag / 8 == 27 ⟩ Moves-put _ (Bare.decode-Moves rt progress)
      ⟨ tag / 8 == 28 ⟩ Moves-put _ (LaunchGuiResponse.decode-Moves rt progress)
      ⟨ tag / 8 == 29 ⟩ Moves-put _ (GetThumbnailResponse.decode-Moves rt progress)
      ⟨ tag / 8 == 30 ⟩ Moves-put _ (Bare.decode-Moves rt progress)
      ⟨ tag / 8 == 31 ⟩ Moves-put _ (PasteResponse.decode-Moves rt progress)
      ⟨ tag / 8 == 32 ⟩ Moves-put _ (CreateFileResponse.decode-Moves rt progress)
      ⟨ tag / 8 == 33 ⟩ Moves-put _ (CreateDirectoryResponse.decode-Moves rt progress)
      ⟨ tag / 8 == 34 ⟩ Moves-put _ (ListMountsResponse.decode-Moves rt progress)
      ⟨ tag / 8 == 35 ⟩ Moves-put _ (PinSearchResponse.decode-Moves rt progress)
      ⟨ tag / 8 == 36 ⟩ Moves-put _ (Bare.decode-Moves rt progress)
      ⟨ tag / 8 == 37 ⟩ Moves-put _ (ListSavedSearchesResponse.decode-Moves rt progress)
      ⟨ tag / 8 == 38 ⟩ Moves-put _ (Bare.decode-Moves rt progress)
      ⟨ tag / 8 == 39 ⟩ Moves-put _ (Bare.decode-Moves rt progress)
      ⟨ tag / 8 == 40 ⟩ Moves-skip_field rt progress tag m

  pub decode-Moves : Moves rt 0 (sub_message rt (decode rt))
  decode-Moves = Moves-sub_message rt progress (decode_field rt) decode_field-Moves empty
