-- ===== src/Contract.antt =====
-- What crosses the queue between the API (api/main.go) and the worker (worker/main.go).
pub mod Webhook
pub mod Result
use burrowcode.Base.{
  String, ◌≡◌, refl, sym, ap, ◌∙◌, Bool, true, false, Option, none, some, List, [], ◌∷◌, ◌==◌,
  eq_iff, if◌then◌else◌, Bool-cases, inl, inr,
}
use burrowcode.Golang.Maps.{Map, HasUniqueKeys}
use burrowcode.Json.{
  Json, Fields, field, no_fields, string, array, text_items, text_unless_empty, texts_unless_empty,
  same_name, decode_text, decode_map,
}
use burrowcode.Json.RoundTrip.{SameEntries, decode_map-text_map, decode_texts-text_items}
use burrowcode.Api.Types.{WorkerCommandRequest, map_or_null, encode_worker_request}
use burrowcode.Worker.Request.{CommandRequest, no_request, store_key, decode_fields, decode_request}

-- what each key does to the worker's struct
module _ (r : CommandRequest) where
  store-input_files :
      (j : Json)
      → store_key r "input_files" j ≡ (
        record r { input_files = (decode_map j r.input_files).0 },
        (decode_map j r.input_files).1,
      )
  unfolding store_key same_name
  store-input_files j = refl

  store-output_files :
      (j : Json)
      → store_key r "output_files" j ≡ (
        record r { output_files = (decode_map j r.output_files).0 },
        (decode_map j r.output_files).1,
      )
  unfolding store_key same_name
  store-output_files j = refl

  store-ffmpeg_commands :
      (ts : List String)
      → store_key r "ffmpeg_commands" (array (text_items ts))
        ≡ (record r { ffmpeg_commands = ts }, true)
  unfolding store_key same_name
  store-ffmpeg_commands ts = rw (decode_texts-text_items ts r.ffmpeg_commands)

  store-ffmpeg_command :
      (t : String)
      → store_key r "ffmpeg_command" (string t) ≡ (record r { ffmpeg_command = t }, true)
  unfolding store_key same_name decode_text
  store-ffmpeg_command t = refl

  store-webhook : (t : String) → store_key r "webhook" (string t) ≡ (record r { webhook = t }, true)
  unfolding store_key same_name decode_text
  store-webhook t = refl

  store-reference_id :
      (t : String) → store_key r "reference_id" (string t) ≡ (record r { reference_id = t }, true)
  unfolding store_key same_name decode_text
  store-reference_id t = refl

read_field :
    (r r' : CommandRequest) (rest : Fields) (k : String) (j : Json)
    → store_key r k j ≡ (r', true)
    → decode_fields (field k j rest) r true ≡ decode_fields rest r' true
unfolding decode_fields
read_field r r' rest k j h =
    ap (λ (x : CommandRequest × Bool). decode_fields rest x.0 (if x.1 then true else false)) h

-- the worker's reading of a field that the API leaves out where it is empty
module _ (r : CommandRequest) (rest : Fields) where
  read-ffmpeg_command :
      (t : String)
      → r.ffmpeg_command ≡ ""
      → decode_fields (text_unless_empty "ffmpeg_command" t rest) r true
        ≡ decode_fields rest (record r { ffmpeg_command = t }) true
  read-ffmpeg_command t h = elim (Bool-cases (t == "")) [
    | inl e ↦ rw e (
        ap (λ x. decode_fields rest (record r { ffmpeg_command = x }) true)
          (h ∙ sym ((eq_iff t "").0 e)))
    | inr e ↦ rw e (
        read_field r (record r { ffmpeg_command = t }) rest "ffmpeg_command" (string t)
          (store-ffmpeg_command r t))
  ]

  read-webhook :
      (t : String)
      → r.webhook ≡ ""
      → decode_fields (text_unless_empty "webhook" t rest) r true
        ≡ decode_fields rest (record r { webhook = t }) true
  read-webhook t h = elim (Bool-cases (t == "")) [
    | inl e ↦
        rw e (
          ap (λ x. decode_fields rest (record r { webhook = x }) true)
            (h ∙ sym ((eq_iff t "").0 e)))
    | inr e ↦
        rw e (read_field r (record r { webhook = t }) rest "webhook" (string t) (store-webhook r t))
  ]

  read-reference_id :
      (t : String)
      → r.reference_id ≡ ""
      → decode_fields (text_unless_empty "reference_id" t rest) r true
        ≡ decode_fields rest (record r { reference_id = t }) true
  read-reference_id t h = elim (Bool-cases (t == "")) [
    | inl e ↦ rw e (
        ap (λ x. decode_fields rest (record r { reference_id = x }) true)
          (h ∙ sym ((eq_iff t "").0 e)))
    | inr e ↦ rw e (
        read_field r (record r { reference_id = t }) rest "reference_id" (string t)
          (store-reference_id r t))
  ]

  read-ffmpeg_commands :
      (ts : List String)
      → r.ffmpeg_commands ≡ []
      → decode_fields (texts_unless_empty "ffmpeg_commands" ts rest) r true
        ≡ decode_fields rest (record r { ffmpeg_commands = ts }) true
  read-ffmpeg_commands [] h = ap (λ x. decode_fields rest (record r { ffmpeg_commands = x }) true) h
  read-ffmpeg_commands (t ∷ ts) h =
      read_field r (record r { ffmpeg_commands = t ∷ ts }) rest "ffmpeg_commands"
        (array (text_items (t ∷ ts))) (store-ffmpeg_commands r (t ∷ ts))

-- no key of a map that may be nil occurs twice
abbrev pub HasKeysOnce : Option (Map String) → Type 0
HasKeysOnce none = Unit
HasKeysOnce (some m) = HasUniqueKeys m

read_map-fits :
    (m : Option (Map String)) → HasKeysOnce m → (decode_map (map_or_null m) none).1 ≡ true
unfolding decode_map
read_map-fits none h = refl
read_map-fits (some m) h = (decode_map-text_map m h).1

read_map-SameEntries :
    (m : Option (Map String)) → HasKeysOnce m → SameEntries (decode_map (map_or_null m) none).0 m
unfolding decode_map
read_map-SameEntries none h = tt
read_map-SameEntries (some m) h = (decode_map-text_map m h).0

-- what the worker's struct holds once it is read
abbrev received : WorkerCommandRequest → CommandRequest
received r = record {
  input_files = (decode_map (map_or_null r.input_files) none).0;
  output_files = (decode_map (map_or_null r.output_files) none).0;
  ffmpeg_command = r.ffmpeg_command;
  ffmpeg_commands = r.ffmpeg_commands;
  webhook = r.webhook;
  reference_id = r.reference_id;
}

-- The worker's struct `w` holds what the API's struct `r` held: the same texts, and maps that are
-- nil where those are and have the same entries.
pub record IsReceived (r : WorkerCommandRequest) (w : CommandRequest) : Type 0 where
  pub input_files : SameEntries w.input_files r.input_files
  pub output_files : SameEntries w.output_files r.output_files
  pub ffmpeg_command : w.ffmpeg_command ≡ r.ffmpeg_command
  pub ffmpeg_commands : w.ffmpeg_commands ≡ r.ffmpeg_commands
  pub webhook : w.webhook ≡ r.webhook
  pub reference_id : w.reference_id ≡ r.reference_id

read_all :
    (r : WorkerCommandRequest)
    → HasKeysOnce r.input_files
    → HasKeysOnce r.output_files
    → decode_request (some (encode_worker_request r)) ≡ (received r, true)
unfolding decode_request encode_worker_request
read_all r h k =
    let f5 = text_unless_empty "reference_id" r.reference_id no_fields in
    let f4 = text_unless_empty "webhook" r.webhook f5 in
    let f3 = texts_unless_empty "ffmpeg_commands" r.ffmpeg_commands f4 in
    let f2 = text_unless_empty "ffmpeg_command" r.ffmpeg_command f3 in
    let inputs = map_or_null r.input_files in
    let outputs = map_or_null r.output_files in
    let r1 = record no_request { input_files = (decode_map inputs none).0 } in
    let r2 = record r1 { output_files = (decode_map outputs none).0 } in
    let r3 = record r2 { ffmpeg_command = r.ffmpeg_command } in
    let r4 = record r3 { ffmpeg_commands = r.ffmpeg_commands } in
    let r5 = record r4 { webhook = r.webhook } in
    read_field no_request r1 (field "output_files" outputs f2) "input_files" inputs
      (store-input_files no_request inputs ∙ ap (λ b. (r1, b)) (read_map-fits r.input_files h))
    ∙ read_field r1 r2 f2 "output_files" outputs
        (store-output_files r1 outputs ∙ ap (λ b. (r2, b)) (read_map-fits r.output_files k))
    ∙ read-ffmpeg_command r2 f3 r.ffmpeg_command refl
    ∙ read-ffmpeg_commands r3 f4 r.ffmpeg_commands refl
    ∙ read-webhook r4 f5 r.webhook refl
    ∙ read-reference_id r5 no_fields r.reference_id refl

-- The worker reads without an error what the API puts on the queue, and gets the same request, where
-- no key of the two maps occurs twice.
pub decode_request-encode_worker_request :
    (r : WorkerCommandRequest)
    → HasKeysOnce r.input_files
    → HasKeysOnce r.output_files
    → ((decode_request (some (encode_worker_request r))).1 ≡ true)
      × IsReceived r (decode_request (some (encode_worker_request r))).0
decode_request-encode_worker_request r h k = rw (read_all r h k) (
  refl,
  record {
    input_files = read_map-SameEntries r.input_files h;
    output_files = read_map-SameEntries r.output_files k;
    ffmpeg_command = refl;
    ffmpeg_commands = refl;
    webhook = refl;
    reference_id = refl;
  },
)
