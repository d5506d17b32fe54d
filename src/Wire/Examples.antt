-- ===== src/Wire/Examples.antt =====
-- Runs of the wire format on a small runtime, and the theorems at concrete messages.
use mathlib.Core.Logic.{◌≢◌}
use tilbo.Prelude.{
  ◌^◌, ◌<◌, String, ◌≡◌, refl, true, false, none, some, [], ◌∷◌, ◌++◌, length, arith, str_eq,
}
use tilbo.Runtime.{done, stuck, reader, buffer}
use tilbo.Runtime.Laws.{Advanced}
use tilbo.Runtime.Sample.{Cursor, cells, cells_laws, cells_progress, num, text, more}
use tilbo.Codec.{
  own, each, or_create, write_entry, decode_with, read_entry, entry_field, read_fields, is_error,
  put_key,
}
use tilbo.Codec.Returns.{Holds}
use tilbo.Ipc.Envelope
use tilbo.Ipc.Envelope.{Envelope}
use tilbo.Ipc.Response
use tilbo.Ipc.Response.{Response}
use tilbo.Ipc.SearchResponse
use tilbo.Ipc.SearchResponse.{SearchResponse}
use tilbo.Ipc.FileResult
use tilbo.Ipc.FileResult.{FileResult}
use tilbo.Ipc.Request
use tilbo.Ipc.Request.{Request}
use tilbo.Ipc.SearchRequest
use tilbo.Ipc.SearchRequest.{SearchRequest}
use tilbo.Ipc.Event
use tilbo.Ipc.Event.{Event}
use tilbo.Ipc.FileTaggedEvent
use tilbo.Ipc.FileTaggedEvent.{FileTaggedEvent}
use tilbo.Ipc.MetadataResponse
use tilbo.Ipc.MetadataResponse.{MetadataResponse}
use tilbo.Wire.RoundTrip.{
  envelope_round_trip, envelope_in_stream, request_round_trip, response_round_trip,
  event_round_trip,
}
use tilbo.Wire.Merge.{envelope_later_wins}
use tilbo.Wire.Unknown.{varint, envelope_skips_unknown}
use tilbo.Wire.Total.{envelope_decode_ends}
use tilbo.Wire.Delimited.{envelope_delimited_round_trip, envelope_delimited_encloses}
use tilbo.Wire.Maps.{get, last_or, HasNoProto, metadata_round_trip, metadata_loses_proto}

abbrev photo : FileResult
photo = record FileResult.empty {
  path = some "/home/b/ring.png";
  tags = "gold" ∷ "riddle" ∷ [];
  metadata = ("width", "12") ∷ ("mime", "image/png") ∷ [];
  is_link = some true;
}

abbrev found : Envelope
found = record Envelope.empty {
  request_id = some 7;
  response = some (record Response.empty {
    search = some (record { files = photo ∷ FileResult.empty ∷ []; total = some 2 });
  });
}

found-IsValid : Envelope.IsValid cells_laws found
found-IsValid = ground arith

found_fits : length (cells.finish (Envelope.encode cells found none)) < 2 ^ 32
unfolding Envelope.encode Response.encode SearchResponse.encode FileResult.encode or_create own each
    write_entry
found_fits = omega arith

envelope_round_trip_example :
    (r : Cursor) × (Envelope.decode cells
        (buffer (cells.finish (Envelope.encode cells found none)))
        none
        none
      ≡ done (found, r))
    × (r.left ≡ [])
envelope_round_trip_example = envelope_round_trip cells cells_laws found found-IsValid found_fits

-- A reader in front of the envelope and one more cell.
abbrev behind : Cursor
behind = record {
  left = cells.finish (Envelope.encode cells found none) ++ (num 9 ∷ []);
  at = 3;
  size = 40;
}

envelope_in_stream_example :
    (r : Cursor) × (Envelope.decode cells
        (reader behind)
        (some (length (cells.finish (Envelope.encode cells found none))))
        none
      ≡ done (found, r))
    × Advanced cells
        (λ c. c.left)
        (cells.finish (Envelope.encode cells found none))
        (num 9 ∷ [])
        behind
        r
envelope_in_stream_example =
    envelope_in_stream cells cells_laws found found-IsValid found_fits behind (num 9 ∷ []) refl

abbrev query : Request
query = record Request.empty {
  search = some (record SearchRequest.empty {
    tags = "gold" ∷ [];
    meta_filters = ("width", "gte:1280") ∷ [];
    limit = some 50;
  });
}

request_round_trip_example :
    (r : Cursor) × (Request.decode cells
        (buffer (cells.finish (Request.encode cells query none)))
        none
        none
      ≡ done (query, r))
    × (r.left ≡ [])
unfolding Request.encode SearchRequest.encode or_create own each write_entry
request_round_trip_example = request_round_trip cells cells_laws query (ground arith) (omega arith)

abbrev answer : Response
answer = record Response.empty { search = some (record { files = photo ∷ []; total = some 1 }) }

response_round_trip_example :
    (r : Cursor) × (Response.decode cells
        (buffer (cells.finish (Response.encode cells answer none)))
        none
        none
      ≡ done (answer, r))
    × (r.left ≡ [])
unfolding Response.encode SearchResponse.encode FileResult.encode or_create own each write_entry
response_round_trip_example =
    response_round_trip cells cells_laws answer (ground arith) (omega arith)

abbrev tagged : Event
tagged = record Event.empty {
  file_tagged = some (record { path = some "/home/b/ring.png"; added = "gold" ∷ []; removed = [] });
}

event_round_trip_example :
    (r : Cursor) × (Event.decode cells
        (buffer (cells.finish (Event.encode cells tagged none)))
        none
        none
      ≡ done (tagged, r))
    × (r.left ≡ [])
unfolding Event.encode FileTaggedEvent.encode or_create own each
event_round_trip_example = event_round_trip cells cells_laws tagged (ground arith) (omega arith)

abbrev notice : Envelope
notice = record Envelope.empty { request_id = some 8; event = some tagged }

envelope_later_wins_example :
    (r : Cursor) × (Envelope.decode cells
        (buffer
          (cells.finish (Envelope.encode cells notice (some (Envelope.encode cells found none)))))
        none
        none
      ≡ done (record found { request_id = some 8; event = some tagged }, r))
    × (r.left ≡ [])
unfolding Envelope.encode Event.encode FileTaggedEvent.encode Response.encode SearchResponse.encode
    FileResult.encode or_create own each write_entry
envelope_later_wins_example =
    envelope_later_wins cells cells_laws found notice found-IsValid (ground arith) (omega arith)

-- Field 5 with a varint of three cells.
envelope_skips_unknown_example :
    (r : Cursor) × (Envelope.decode cells
        (buffer
          (cells.finish (Envelope.encode cells found none) ++ (num 40 ∷ more ∷ more ∷ num 6 ∷ [])))
        none
        none
      ≡ done (found, r))
    × (r.left ≡ [])
unfolding Envelope.encode Response.encode SearchResponse.encode FileResult.encode or_create own each
    write_entry
envelope_skips_unknown_example =
    envelope_skips_unknown cells cells_laws found 40 (more ∷ more ∷ num 6 ∷ []) found-IsValid
      (omega arith) (omega arith) (varint (more ∷ more ∷ num 6 ∷ []) refl (refl, (refl, refl)))
      (omega arith)

envelope_decode_ends_example :
    Envelope.decode cells (buffer (num 18 ∷ num 4 ∷ text "x" ∷ [])) none (some 34) ≢ stuck
envelope_decode_ends_example =
    envelope_decode_ends cells cells_progress (buffer (num 18 ∷ num 4 ∷ text "x" ∷ [])) none
      (some 34)

envelope_delimited_round_trip_example :
    (r : Cursor) × (Envelope.decode_delimited cells
        (buffer (cells.finish (Envelope.encode_delimited cells found none)))
      ≡ done (found, r))
    × (r.left ≡ [])
unfolding Envelope.encode_delimited Envelope.encode Response.encode SearchResponse.encode
    FileResult.encode or_create own each write_entry
envelope_delimited_round_trip_example =
    envelope_delimited_round_trip cells cells_laws found found-IsValid (omega arith)

envelope_delimited_encloses_example :
    cells.finish
      (Envelope.encode_delimited cells found (some (record { top = num 1 ∷ []; below = [] })))
    ≡ num (length ((num 1 ∷ []) ++ cells.finish (Envelope.encode cells found none)))
      ∷ ((num 1 ∷ []) ++ cells.finish (Envelope.encode cells found none))
envelope_delimited_encloses_example =
    envelope_delimited_encloses cells cells_laws found (record { top = num 1 ∷ []; below = [] })
      found-IsValid refl

abbrev described : MetadataResponse
described = record {
  path = some "/home/b/ring.png";
  metadata = ("width", "12") ∷ ("__proto__", "lost") ∷ ("width", "13") ∷ [];
  sources = [];
}

metadata_round_trip_example :
    (out : MetadataResponse) × (r : Cursor) × (MetadataResponse.decode cells
        (buffer (cells.finish (MetadataResponse.encode cells described none)))
        none
        none
      ≡ done (out, r))
    × (out.path ≡ described.path)
    × ((k : String)
        → str_eq k "__proto__" ≡ false
        → (get k out.metadata ≡ last_or none k described.metadata)
          × (get k out.sources ≡ last_or none k described.sources))
unfolding MetadataResponse.encode or_create own each write_entry
metadata_round_trip_example = metadata_round_trip cells cells_laws described (omega arith)

metadata_loses_proto_example : Holds HasNoProto (
    MetadataResponse.decode cells
      (buffer (cells.finish (MetadataResponse.encode cells described none)))
      none
      none)
metadata_loses_proto_example =
    metadata_loses_proto cells
      (buffer (cells.finish (MetadataResponse.encode cells described none))) none none

-- The last entry for `width` is read, and the entry for `__proto__` is not.
described_is_read :
    MetadataResponse.decode cells
      (buffer (cells.finish (MetadataResponse.encode cells described none)))
      none
      none
    ≡ done (
      record described { metadata = ("width", "13") ∷ [] },
      record { left = []; at = 20; size = 20 },
    )
unfolding MetadataResponse.encode MetadataResponse.decode_field or_create own each write_entry
    decode_with read_entry entry_field read_fields is_error put_key
described_is_read = refl
