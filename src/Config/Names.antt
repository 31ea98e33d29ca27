-- ===== src/Config/Names.antt =====
-- Internal model ids: what `ModelInternalID` joins, `ParseInternalModelID` splits.
use simple_api.Base.{
  ℕ, ◌≡◌, refl, ap, ◌≢◌, false, some, [], ◌∷◌, ◌++◌, arith, length, take, length-append, Text,
  index_byte, contains_byte, drop-length-append, drop-add,
}
use simple_api.Config.{
  ProviderModel, slash, effective_alias_a, model_internal_id, split_at, parse_internal_model_id,
}

pub index_byte-append :
    (a b : Text) (c : ℕ) → contains_byte a c ≡ false → index_byte (a ++ c ∷ b) c ≡ some (length a)
unfolding index_byte contains_byte
index_byte-append [] b c h = ground arith
index_byte-append (x ∷ a) b c h = ground (arith, index_byte-append a b c)

pub take-length-append : (a b : Text) → take (length a) (a ++ b) ≡ a
take-length-append [] b = refl
take-length-append (x ∷ a) b = ap (λ t. x ∷ t) (take-length-append a b)

-- For a provider name that is not empty and has no '/', and a model whose alias is not empty, the
-- id parses back to the provider's name and the alias, whatever bytes the alias has ('/' too).
pub parse_internal_model_id-model_internal_id :
    (provider : Text) (m : ProviderModel)
    → provider ≢ []
    → contains_byte provider slash ≡ false
    → effective_alias_a m ≢ []
    → parse_internal_model_id (model_internal_id provider m) ≡ some (provider, effective_alias_a m)
unfolding parse_internal_model_id model_internal_id
parse_internal_model_id-model_internal_id provider m named plain aliased =
    rw (index_byte-append provider (effective_alias_a m) slash plain)
      (split_at_lem provider (effective_alias_a m) named aliased)
  where
    split_at_lem :
        (a b : Text) → a ≢ [] → b ≢ [] → split_at (a ++ slash ∷ b) (some (length a)) ≡ some (a, b)
    split_at_lem a [] p q = absurd (q refl)
    split_at_lem [] (y ∷ b) p q = absurd (p refl)
    split_at_lem (x ∷ a) (y ∷ b) p q = ground (
      arith,
      length-append (x ∷ a) (slash ∷ y ∷ b),
      take-length-append (x ∷ a) (slash ∷ y ∷ b),
      drop-add (length (x ∷ a)) 1 ((x ∷ a) ++ slash ∷ y ∷ b),
      drop-length-append (x ∷ a) (slash ∷ y ∷ b),
    )
