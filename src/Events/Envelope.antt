-- ===== src/Events/Envelope.antt =====
-- src/shrap/common/envelope.py. Python's `json` and `datetime` are an interface, and so is the length of a
-- text in UTF-8. The fields of a Redis entry are a dict; `none` is the exception of a missing key, of a
-- text that cannot be read, or of the validator.
use shrap_firm.Prelude.{
  ℕ, ◌*◌, ◌≡◌, refl, Bool, Option, none, some, [], ◌∷◌, arith, ltb, if◌then◌else◌, is_none, list_eq,
  ◌>>=◌,
}
use shrap_firm.Prelude.Text.{Text, text_Eq, text_eq, codes}
use shrap_firm.Prelude.Dict.{Dict, get, put}

pub record Formats (P T : Type 0) : Type 0 where
  pub dumps : P → Text
  pub loads : Text → Option P
  pub isoformat : T → Text
  pub fromisoformat : Text → Option T
  pub utf8_length : Text → ℕ

-- `Envelope`
pub record Envelope (P T : Type 0) : Type 0 where
  pub event_id : Text
  pub schema_version : Text
  pub produced_at : T
  pub produced_by : Text
  pub correlation_id : Option Text
  pub payload : Option P
  pub payload_ref : Option Text

-- `MAX_INLINE_PAYLOAD_BYTES`
abbrev pub max_inline_payload_bytes : ℕ
max_inline_payload_bytes = 16 * 1024

abbrev put_some : Text → Option Text → Dict Text Text → Dict Text Text
put_some key none fields = fields
put_some key (some value) fields = put fields key value

module _ {P T : Type 0} where
  -- `_exactly_one_payload`
  unfoldable pub validated : Envelope P T → Option (Envelope P T)
  validated e =
      if is_none e.payload
      then (if is_none e.payload_ref then none else some e)
      else if is_none e.payload_ref
      then some e
      else none

  module _ (f : Formats P T) where
    -- `must_use_ref`
    unfoldable pub must_use_ref : P → Bool
    must_use_ref payload = ltb max_inline_payload_bytes (f.utf8_length (f.dumps payload))

    -- `Envelope.new`, with the fresh identifier and the clock
    unfoldable pub new_envelope : Text → T → Text → Text → P → Option Text → Option (Envelope P T)
    new_envelope event_id now produced_by schema_version payload correlation_id =
        if must_use_ref payload
        then none
        else validated (record {
          event_id = event_id;
          schema_version = schema_version;
          produced_at = now;
          produced_by = produced_by;
          correlation_id = correlation_id;
          payload = some payload;
          payload_ref = none;
        })

    abbrev dumped : Option P → Option Text
    dumped none = none
    dumped (some payload) = some (f.dumps payload)

    -- `to_redis_fields`
    unfoldable pub to_redis_fields : Envelope P T → Dict Text Text
    to_redis_fields e =
        let header =
          (codes "h_event_id", e.event_id)
          ∷ (codes "h_schema_version", e.schema_version)
          ∷ (codes "h_produced_at", f.isoformat e.produced_at)
          ∷ (codes "h_produced_by", e.produced_by)
          ∷ [] in
        put_some (codes "payload_ref") e.payload_ref (
          put_some (codes "payload") (dumped e.payload)
            (put_some (codes "h_correlation_id") e.correlation_id header))

    -- The reading of `payload`: `some none` where there is none.
    abbrev loaded : Option Text → Option (Option P)
    loaded none = some none
    loaded (some text) = elim (f.loads text) [ none ↦ none | some payload ↦ some (some payload) ]

    -- `from_redis_fields`
    unfoldable pub from_redis_fields : Dict Text Text → Option (Envelope P T)
    from_redis_fields fields = do
      payload ← loaded (get fields (codes "payload"))
      event_id ← get fields (codes "h_event_id")
      schema_version ← get fields (codes "h_schema_version")
      at ← get fields (codes "h_produced_at")
      produced_at ← f.fromisoformat at
      produced_by ← get fields (codes "h_produced_by")
      validated (record {
        event_id = event_id;
        schema_version = schema_version;
        produced_at = produced_at;
        produced_by = produced_by;
        correlation_id = get fields (codes "h_correlation_id");
        payload = payload;
        payload_ref = get fields (codes "payload_ref");
      })

    -- Whichever of the optional fields are set, the entry is read back.
    fields_of :
        (id version by : Text) (at : T) (correlation : Option Text) (payload : Option P)
        (ref : Option Text)
        → ((p : P) → payload ≡ some p → f.loads (f.dumps p) ≡ some p)
        → f.fromisoformat (f.isoformat at) ≡ some at
        → let e : Envelope P T = record {
          event_id = id;
          schema_version = version;
          produced_at = at;
          produced_by = by;
          correlation_id = correlation;
          payload = payload;
          payload_ref = ref;
        } in
          from_redis_fields (to_redis_fields e) ≡ validated e
    unfolding to_redis_fields from_redis_fields get put text_eq list_eq
    fields_of id version by at none none none json time = rw (time) refl
    fields_of id version by at none none (some ref) json time = rw (time) refl
    fields_of id version by at (some c) none none json time = rw (time) refl
    fields_of id version by at (some c) none (some ref) json time = rw (time) refl
    fields_of id version by at none (some p) none json time = rw (json p refl, time) refl
    fields_of id version by at none (some p) (some ref) json time = rw (json p refl, time) refl
    fields_of id version by at (some c) (some p) none json time = rw (json p refl, time) refl
    fields_of id version by at (some c) (some p) (some ref) json time = rw (json p refl, time) refl

    -- An envelope that the validator accepts is read back from its Redis fields as it was, and one
    -- that it refuses is refused. The payload, where there is one, and the time are values that `json`
    -- and `datetime` read back from their own texts.
    pub from_redis_fields-to_redis_fields :
        (e : Envelope P T)
        → ((p : P) → e.payload ≡ some p → f.loads (f.dumps p) ≡ some p)
        → f.fromisoformat (f.isoformat e.produced_at) ≡ some e.produced_at
        → from_redis_fields (to_redis_fields e) ≡ validated e
    from_redis_fields-to_redis_fields e json time =
        fields_of e.event_id e.schema_version e.produced_by e.produced_at e.correlation_id e.payload
          e.payload_ref json time

    -- What `Envelope.new` makes is an envelope with its payload inline, whose text is at most 16 KiB
    -- long, and it is read back from its Redis fields; it makes one exactly when the text is that short.
    pub new_envelope_lem :
        (id : Text) (now : T) (by version : Text) (p : P) (correlation : Option Text)
        → f.loads (f.dumps p) ≡ some p
        → f.fromisoformat (f.isoformat now) ≡ some now
        → ((e : Envelope P T)
            → new_envelope id now by version p correlation ≡ some e
            → (e.payload ≡ some p) × (from_redis_fields (to_redis_fields e) ≡ some e))
          × (is_none (new_envelope id now by version p correlation)
              ≡ ltb max_inline_payload_bytes (f.utf8_length (f.dumps p)))
    unfolding new_envelope must_use_ref validated
    new_envelope_lem id now by version p correlation json time = (
      λ e made.
          let whole : Envelope P T = record {
            event_id = id;
            schema_version = version;
            produced_at = now;
            produced_by = by;
            correlation_id = correlation;
            payload = some p;
            payload_ref = none;
          } in
          let shape : whole ≡ e = ground arith in
          rw (← shape) (
            refl,
            fields_of id version by now correlation (some p) none
                (λ r same. let is_p : p ≡ r = ground arith in rw (← is_p) json) time,
          ),
      ground arith,
    )
