-- ===== src/Gui/Links/Fields.antt =====
-- gui/src/link.rs: what an import reads back from the query of an exported link.
use juicity_rs.Base.{
  ℕ, ◌≡◌, refl, ◌∙◌, List, [], ◌∷◌, ◌++◌, Option, none, some, Bool, true, false, ◌||◌, Bytes, map,
  is_empty, if◌then◌else◌, All,
}
use mathlib.Core.List.{map-append}
use juicity_rs.Gui.Profile.{codes, ProxyProfile, normalize_congestion_control}
use juicity_rs.Gui.Links.Types.{Codecs, present}
use juicity_rs.Gui.Links.Import.{QueryFields, query_field, query_fields}
use juicity_rs.Gui.Links.Export.{param, serialized, export_params}
use juicity_rs.Gui.Links.Percent.{SerializerLaws}
use juicity_rs.Gui.Links.Ink.{IsInk}

-- What an import finds in the query of a link.
abbrev or_keep : Option Bytes → Option Bytes → Option Bytes
or_keep (some v) old = some v
or_keep none old = old

abbrev pub normalized : Option Bytes → Option Bytes
normalized none = none
normalized (some v) = normalize_congestion_control v

query_fields-append :
    (xs ys : List (Bytes × Bytes)) (q : QueryFields)
    → query_fields (xs ++ ys) q ≡ query_fields ys (query_fields xs q)
unfolding query_fields
query_fields-append [] ys q = refl
query_fields-append ((k, v) ∷ xs) ys q = query_fields-append xs ys (query_field k v q)

-- The form data of a query is decoded to what was serialized; what is serialized has no blanks, and
-- something of every byte.
pub record UrlLaws (c : Codecs) (serial : SerializerLaws c) : Type 0 where
  pub form_decode : Bytes → Bytes
  pub form_decode-byte_serialize : (v : Bytes) → form_decode (c.byte_serialize v) ≡ v
  pub form_decode_one : form_decode (codes "1") ≡ codes "1"
  pub serialize_byte-ink : (b : ℕ) → All IsInk (serial.serialize_byte b)
  pub serialize_byte-cons : (b : ℕ) → is_empty (serial.serialize_byte b) ≡ false

module _ (c : Codecs) (serial : SerializerLaws c) (laws : UrlLaws c serial) where
  abbrev pub decoded_pairs : List (Bytes × Bytes) → List (Bytes × Bytes)
  decoded_pairs = map (λ (kv : Bytes × Bytes). (kv.0, laws.form_decode kv.1))

  sni_lem :
      (o : Option Bytes) (q : QueryFields)
      → query_fields (decoded_pairs (param (codes "sni") (serialized c o))) q
        ≡ record q { sni = or_keep o q.sni }
  unfolding query_fields query_field
  sni_lem none q = refl
  sni_lem (some v) q = rw (laws.form_decode-byte_serialize v) refl

  allow_lem :
      (b : Bool) (q : QueryFields)
      → query_fields
          (decoded_pairs (param (codes "allowInsecure") (if b then some (codes "1") else none)))
          q
        ≡ record q { allow_insecure = b || q.allow_insecure }
  unfolding query_fields query_field
  allow_lem true q = rw laws.form_decode_one refl
  allow_lem false q = refl

  congestion_lem :
      (o : Option Bytes) (q : QueryFields)
      → q.congestion_control ≡ none
      → query_fields (decoded_pairs (param (codes "congestion_control") (serialized c o))) q
        ≡ record q { congestion_control = normalized o }
  unfolding query_fields query_field
  congestion_lem none q h = λ i. record q { congestion_control = h i }
  congestion_lem (some v) q h = rw (laws.form_decode-byte_serialize v) refl

  pinned_lem :
      (o : Option Bytes) (q : QueryFields)
      → query_fields
          (decoded_pairs (param (codes "pinned_certchain_sha256") (serialized c (present o))))
          q
        ≡ record q { pinned_certchain_sha256 = or_keep (present o) q.pinned_certchain_sha256 }
  unfolding query_fields query_field
  pinned_lem none q = refl
  pinned_lem (some []) q = refl
  pinned_lem (some (x ∷ xs)) q = rw (laws.form_decode-byte_serialize (x ∷ xs)) refl

  abbrev pub no_fields : QueryFields
  no_fields = record {
    sni = none;
    allow_insecure = false;
    pinned_certchain_sha256 = none;
    congestion_control = none;
  }

  or_keep-none : (o : Option Bytes) → or_keep o none ≡ o
  or_keep-none none = refl
  or_keep-none (some v) = refl

  or_false : (b : Bool) → (b || false) ≡ b
  or_false true = refl
  or_false false = refl

  -- What is found before the last pair.
  abbrev seen : ProxyProfile → QueryFields
  seen p = record {
    sni = or_keep (present p.sni) none;
    allow_insecure = p.allow_insecure || false;
    pinned_certchain_sha256 = none;
    congestion_control = normalized (present p.congestion_control);
  }

  pub fields_lem :
      (p : ProxyProfile)
      → query_fields (decoded_pairs (export_params c p)) no_fields ≡ record {
        sni = present p.sni;
        allow_insecure = p.allow_insecure;
        pinned_certchain_sha256 = present p.pinned_certchain_sha256;
        congestion_control = normalized (present p.congestion_control);
      }
  unfolding export_params
  fields_lem p =
      rw
        (
          export_params, map-append, query_fields-append, sni_lem, map-append, query_fields-append,
          allow_lem, map-append, query_fields-append, congestion_lem,
        )
        (pinned_lem p.pinned_certchain_sha256 (seen p) ∙ (λ i. record {
          sni = or_keep-none (present p.sni) i;
          allow_insecure = or_false p.allow_insecure i;
          pinned_certchain_sha256 = or_keep-none (present p.pinned_certchain_sha256) i;
          congestion_control = normalized (present p.congestion_control);
        }))
