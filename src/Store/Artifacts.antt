-- ===== src/Store/Artifacts.antt =====
-- src/testbed_store/artifacts.py: the directory of files named by the hash of what they hold.
use multi_agent_testbed.Base.{
  ℕ, ◌≡◌, refl, String, Bool, Option, none, some, List, [], ◌∷◌, All, is_some, ◌==◌, ==_iff,
  ==_refl, if◌then◌else◌, Bool-cases, Option-cases, inl, inr,
}

-- SHA-256 of a file's bytes, and how many there are.
pub record Digest (D : Type 0) : Type 0 where
  pub sha256 : D → ℕ
  pub size : D → ℕ

pub record BlobRef : Type 0 where
  pub hash : ℕ
  pub media_type : String
  pub size_bytes : ℕ

module _ {D : Type 0} where
  -- The file at the path of a digest.
  abbrev pub file_at : ℕ → List (ℕ × D) → Option D
  file_at digest [] = none
  file_at digest ((name, body) ∷ files) = if name == digest then some body else file_at digest files

  unfoldable pub put : Digest D → D → String → List (ℕ × D) → BlobRef × List (ℕ × D)
  put d body media_type files = (
    record { hash = d.sha256 body; media_type = media_type; size_bytes = d.size body },
    if is_some (file_at (d.sha256 body) files) then files else (d.sha256 body, body) ∷ files,
  )

  -- `none` is the `FileNotFoundError`.
  unfoldable pub get : BlobRef → List (ℕ × D) → Option D
  get r files = file_at r.hash files

  unfoldable pub has : BlobRef → List (ℕ × D) → Bool
  has r files = is_some (file_at r.hash files)

  -- No stored file has the digest of other data than its own.
  abbrev pub IsFaithful : Digest D → D → List (ℕ × D) → Type 0
  IsFaithful d body = All (λ f. f.0 ≡ d.sha256 body → f.1 ≡ body)

  file_at-IsFaithful :
      (d : Digest D) (body found : D) (files : List (ℕ × D))
      → IsFaithful d body files
      → file_at (d.sha256 body) files ≡ some found
      → found ≡ body
  file_at-IsFaithful d body found [] h e = cc
  file_at-IsFaithful d body found ((name, held) ∷ files) h e =
      elim (Bool-cases (name == d.sha256 body)) [
        | inl same ↦
            let here = rw same at e in
            let held_data = h.0 ((==_iff name (d.sha256 body)).0 same) in cc
        | inr other ↦ file_at-IsFaithful d body found files h.1 (rw other at e)
      ]

  -- What is put can be read back by its reference, where no stored file has its digest for other
  -- data.
  pub get-put :
      (d : Digest D) (body : D) (media_type : String) (files : List (ℕ × D))
      → IsFaithful d body files
      → get (put d body media_type files).0 (put d body media_type files).1 ≡ some body
  unfolding get put
  get-put d body media_type files h = elim (Option-cases (file_at (d.sha256 body) files)) [
    | inl e ↦ rw (e, ==_refl (d.sha256 body)) refl
    | inr (found, e) ↦ rw (e, e, file_at-IsFaithful d body found files h e) refl
  ]
