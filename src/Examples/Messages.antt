-- ===== src/Examples/Messages.antt =====
-- Envelopes with numbers for payloads and times.
use shrap_firm.Prelude.{ℕ, ◌≡◌, refl, Option, none, some, [], ◌∷◌, length}
use shrap_firm.Prelude.Text.{Text, codes}
use shrap_firm.Events.Envelope.{
  Formats, Envelope, to_redis_fields, from_redis_fields, validated,
  from_redis_fields-to_redis_fields,
}

-- The text of a number is the character with that code.
abbrev number : Text → Option ℕ
number [] = none
number (n ∷ rest) = some n

abbrev formats : Formats ℕ ℕ
formats = record {
  dumps = λ p. p ∷ [];
  loads = number;
  isoformat = λ t. t ∷ [];
  fromisoformat = number;
  utf8_length = length;
}

abbrev phase_event : Envelope ℕ ℕ
phase_event = record {
  event_id = codes "01J";
  schema_version = codes "1.0.0";
  produced_at = 40;
  produced_by = codes "operations/market-phase";
  correlation_id = none;
  payload = some 7;
  payload_ref = none;
}

from_redis_fields-to_redis_fields_example :
    from_redis_fields formats (to_redis_fields formats phase_event) ≡ validated phase_event
from_redis_fields-to_redis_fields_example =
    from_redis_fields-to_redis_fields formats phase_event (λ p h. refl) refl
