-- ===== src/MailFetch/Targets.antt =====
-- The e-mails that the mail fetch stage saves (internal/mailfetch/application/usecase.go).
use billingrse_backend.Prelude.{
  ◌+◌, ◌≡◌, refl, false, List, [], ◌∷◌, All, map, length, is_empty, Bool-cases, inl, inr, arith,
}
use billingrse_backend.GoText.{Text, trim_space, has_key}
use billingrse_backend.GoText.Trim.{trim_space_idem}
use billingrse_backend.GoTime.{is_zero}
use billingrse_backend.Domain.Email.{FetchedEmail}
use billingrse_backend.MailFetch.{is_invalid, sort_fetched, save_target, compute_body_digest}

-- The keys are trimmed and different, and none of them is among those seen.
abbrev pub IsFresh : List Text → List Text → Type 0
IsFresh seen [] = Unit
IsFresh seen (id ∷ ids) =
    (has_key id seen ≡ false) × ((trim_space id ≡ id) × IsFresh (id ∷ seen) ids)

-- An e-mail with a trimmed id that is not blank, a date and the digest of its body.
abbrev pub IsSaveTarget : (Text → Text) → FetchedEmail → Type 0
IsSaveTarget sum256_hex dto =
    (is_empty dto.id ≡ false)
    × (trim_space dto.id ≡ dto.id)
    × (is_zero dto.date ≡ false)
    × (dto.body_digest ≡ sum256_hex dto.body)

abbrev pub ids : List FetchedEmail → List Text
ids targets = map (λ (t : FetchedEmail). t.id) targets

module _ (sum256_hex : Text → Text) where
  -- Each fetched e-mail is a save target or has a failure.
  pub sort_fetched-count :
      (seen : List Text) (dtos : List FetchedEmail)
      → length (sort_fetched sum256_hex seen dtos).0 + length (sort_fetched sum256_hex seen dtos).1
        ≡ length dtos
  unfolding sort_fetched
  sort_fetched-count seen [] = omega arith
  sort_fetched-count seen (dto ∷ dtos) = elim (Bool-cases (is_invalid dto)) [
    | inl e ↦ rw e (omega (arith, sort_fetched-count seen dtos))
    | inr e ↦ elim (Bool-cases (has_key (trim_space dto.id) seen)) [
      | inl k ↦ rw (e, k) (omega (arith, sort_fetched-count seen dtos))
      | inr k ↦ rw (e, k) (omega (arith, sort_fetched-count (trim_space dto.id ∷ seen) dtos))
    ]
  ]

  save_target-IsSaveTarget :
      (dto : FetchedEmail)
      → is_invalid dto ≡ false
      → IsSaveTarget sum256_hex (save_target sum256_hex dto)
  unfolding compute_body_digest
  save_target-IsSaveTarget dto e = (ground arith, trim_space_idem dto.id, ground arith, refl)

  pub sort_fetched-IsSaveTarget :
      (seen : List Text) (dtos : List FetchedEmail)
      → All (IsSaveTarget sum256_hex) (sort_fetched sum256_hex seen dtos).0
  unfolding sort_fetched
  sort_fetched-IsSaveTarget seen [] = tt
  sort_fetched-IsSaveTarget seen (dto ∷ dtos) = elim (Bool-cases (is_invalid dto)) [
    | inl e ↦ rw e (sort_fetched-IsSaveTarget seen dtos)
    | inr e ↦ elim (Bool-cases (has_key (trim_space dto.id) seen)) [
      | inl k ↦ rw (e, k) (sort_fetched-IsSaveTarget seen dtos)
      | inr k ↦
          rw (e, k)
            (
              save_target-IsSaveTarget dto e,
              sort_fetched-IsSaveTarget (trim_space dto.id ∷ seen) dtos,
            )
    ]
  ]

  -- The save targets have trimmed ids that differ from one another and from those seen before.
  pub sort_fetched-IsFresh :
      (seen : List Text) (dtos : List FetchedEmail)
      → IsFresh seen (ids (sort_fetched sum256_hex seen dtos).0)
  unfolding sort_fetched
  sort_fetched-IsFresh seen [] = tt
  sort_fetched-IsFresh seen (dto ∷ dtos) = elim (Bool-cases (is_invalid dto)) [
    | inl e ↦ rw e (sort_fetched-IsFresh seen dtos)
    | inr e ↦ elim (Bool-cases (has_key (trim_space dto.id) seen)) [
      | inl k ↦ rw (e, k) (sort_fetched-IsFresh seen dtos)
      | inr k ↦
          rw (e, k)
            (k, (trim_space_idem dto.id, sort_fetched-IsFresh (trim_space dto.id ∷ seen) dtos))
    ]
  ]
