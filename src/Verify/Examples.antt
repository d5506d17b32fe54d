-- ===== src/Verify/Examples.antt =====
-- Runs of `verify`, and the theorems at concrete values. `plain` stands in for the tests of
-- protobuf.js, with numbers for its 64-bit integers.
use mathlib.Core.Logic.{inl, ◌↔◌}
use tilbo.Prelude.{◌≡◌, ◌≤◌, refl, Bool, true, false, none, some, [], ◌∷◌, arith}
use tilbo.Prelude.Int.{pos}
use tilbo.Values.{
  Value, null, boolean, integer, string, array, object, no_items, item, no_props, prop, Util,
  Documented, is_record, verify_record, ◌orelse◌, check, expects_wide, verify_oneof,
  expects_strings, expects_enum,
}
use tilbo.Values.Oneof.{count_given}
use tilbo.Ipc.Envelope.{Envelope}
use tilbo.Ipc.Request.{empty as no_request}
use tilbo.Verify.Envelope
use tilbo.Verify.Bare
use tilbo.Verify.Request
use tilbo.Verify.Response
use tilbo.Verify.TagRequest
use tilbo.Verify.Oneofs.{
  IsWellFormed, envelope_verify_iff, request_verify_iff, response_verify_iff,
  envelope_verify_accepts,
}

abbrev test_string : Value → Bool
test_string (string s) = true
test_string _ = false

abbrev test_integer : Value → Bool
test_integer (integer z) = true
test_integer _ = false

abbrev test_object : Value → Bool
test_object (array xs) = true
test_object (object ps) = true
test_object _ = false

abbrev plain : Util
plain = record {
  is_string = test_string;
  is_integer = test_integer;
  is_object = test_object;
  wide = integer;
}

plain-Documented : Documented plain
plain-Documented = record {
  strings = λ s. refl;
  integers = λ z. refl;
  objects = λ ps. refl;
  wides = λ z. inl refl;
}

-- Two payloads, one of them with a field of a wrong type.
abbrev doubled : Value
doubled = object (
    prop "requestId" (integer (pos 7)) (
      prop "request" (object (prop "status" (object no_props) no_props))
        (prop "event" (object (prop "fileTagged" (boolean true) no_props)) no_props)))

envelope_verify_iff_example : (Envelope.verify plain doubled ≡ none) ↔ IsWellFormed plain doubled
envelope_verify_iff_example = envelope_verify_iff plain doubled

abbrev tag_request : Value
tag_request = object (
    prop "tag"
      (object (
        prop "paths" (array (item (string "/home/b/ring.png") no_items))
          (prop "operation" (integer (pos 2)) no_props)))
      (prop "status" null no_props))

request_verify_iff_example : (Request.verify plain tag_request ≡ none) ↔ (
    (is_record tag_request ≡ true)
    × (count_given Request.Kinds.names tag_request ≤ 1)
    × Request.Kinds.AreAccepted plain tag_request)
request_verify_iff_example = request_verify_iff plain tag_request

-- A number where the message of an error belongs.
abbrev error_response : Value
error_response = object (prop "error" (object (prop "message" (integer (pos 2)) no_props)) no_props)

response_verify_iff_example : (Response.verify plain error_response ≡ none) ↔ (
    (is_record error_response ≡ true)
    × (count_given Response.Kinds.names error_response ≤ 1)
    × Response.Kinds.AreAccepted plain error_response)
response_verify_iff_example = response_verify_iff plain error_response

abbrev tagging : Envelope
tagging = record {
  request_id = some 7;
  request = some (record no_request {
    tag =
        some (record {
          paths = "/home/b/ring.png" ∷ [];
          tags = "gold" ∷ [];
          operation = some (pos 1);
        });
  });
  response = none;
  event = none;
}

tagging-IsRegular : Envelope.IsRegular tagging
tagging-IsRegular = record {
  one = omega arith;
  request = record {
    one = omega arith;
    tag = record { operation = (1, omega arith, refl) };
    get_thumbnail = tt;
  };
  response = tt;
  event = tt;
}

envelope_verify_accepts_example : Envelope.verify plain (Envelope.to_object plain tagging) ≡ none
envelope_verify_accepts_example =
    envelope_verify_accepts plain plain-Documented tagging tagging-IsRegular

-- The oneof is looked at before the second payload is.
doubled_is_refused : Envelope.verify plain doubled ≡ some "payload: multiple values"
unfolding Envelope.verify verify_record ◌orelse◌ check expects_wide verify_oneof Request.verify
    Bare.verify
doubled_is_refused = refl

tag_request_is_accepted : Request.verify plain tag_request ≡ none
unfolding Request.verify verify_record verify_oneof TagRequest.verify check expects_strings
    expects_enum
tag_request_is_accepted = refl
