-- ===== src/Http/Keys/Agreement.antt =====
-- The keys of the HTTP front end and of the preloader (http/key_derivation.cpp) line up.
use goblin_store.Prelude.{
  ℕ, true, false, ◌==◌, some, [], ◌∷◌, ◌≡◌, refl, ap, arith, Bool-cases, inl, inr,
}
use goblin_store.Prelude.Bytes.{Bytes, has_byte, before, from_byte, before_absent, from_byte_absent}
use goblin_store.Common.Config.{is_empty}
use goblin_store.Http.Keys.{
  KeyMode, KeyOptions, slash, percent_decode, canonical_path, path_key, finish_key, derive_key,
  relpath_key, derive_key_from_relpath,
}

-- Decoding changes nothing where there is no percent sign.
percent_decode_plain : (s : Bytes) → has_byte b'%' s ≡ false → percent_decode s ≡ s
unfolding percent_decode has_byte
percent_decode_plain [] h = refl
percent_decode_plain (a ∷ []) h = refl
percent_decode_plain (a ∷ b ∷ []) h = refl
percent_decode_plain (a ∷ b ∷ c ∷ s) h =
    let e : (a == b'%') ≡ false = ground arith in
    rw e (ap (◌∷◌ a) (percent_decode_plain (b ∷ c ∷ s) (ground arith)))

-- A file name with no percent sign, number sign or question mark.
pub record IsPlain (s : Bytes) : Type 0 where
  pub no_percent : has_byte b'%' s ≡ false
  pub no_fragment : has_byte b'#' s ≡ false
  pub no_query : has_byte b'?' s ≡ false

absent_after_slash :
    (c : ℕ) (s : Bytes)
    → (slash == c) ≡ false
    → has_byte c s ≡ false
    → has_byte c (slash ∷ s) ≡ false
unfolding has_byte
absent_after_slash c s other h = rw (other, h) refl

module _ (host s : Bytes) (opt : KeyOptions) where
  derive_key_parts :
      (u : Bytes)
      → derive_key host u opt
        ≡ finish_key opt.mode host
            (path_key (before b'?' (before b'#' u)) (from_byte b'?' (before b'#' u)) opt)
            opt.strip_leading_slash
  unfolding derive_key
  derive_key_parts u = refl

  no_index :
      (p : Bytes) → is_empty opt.index_name ≡ true → path_key p [] opt ≡ canonical_path p true
  unfolding path_key
  no_index p index = elim (Bool-cases opt.keep_query) [
    | inl keep ↦ rw (index, keep) refl
    | inr strip ↦ rw (index, strip) refl
  ]

  undecoded : (p : Bytes) → percent_decode p ≡ p → canonical_path p true ≡ canonical_path p false
  unfolding canonical_path
  undecoded p e = rw e refl

  finished :
      opt.mode ≡ KeyMode.path
      → finish_key opt.mode host (canonical_path (slash ∷ s) false) opt.strip_leading_slash
        ≡ some (derive_key_from_relpath s opt)
  unfolding finish_key derive_key_from_relpath relpath_key
  finished mode = elim (Bool-cases opt.strip_leading_slash) [
    | inl strip ↦ rw (mode, strip) refl
    | inr keep ↦ rw (mode, keep) refl
  ]

  -- In path mode, with no directory index, the request for a slash and a file's relative path gets
  -- the key that the preloader gives the file, whatever the query and the slash options, if the path
  -- has no percent sign, number sign or question mark.
  pub derive_key-derive_key_from_relpath :
      IsPlain s
      → opt.mode ≡ KeyMode.path
      → is_empty opt.index_name ≡ true
      → derive_key host (slash ∷ s) opt ≡ some (derive_key_from_relpath s opt)
  derive_key-derive_key_from_relpath v mode index =
      let u = slash ∷ s in
      let fragment = before_absent b'#' u (absent_after_slash b'#' s refl v.no_fragment) in
      let query = absent_after_slash b'?' s refl v.no_query in
      let percent = percent_decode_plain u (absent_after_slash b'%' s refl v.no_percent) in
      rw
        (
          derive_key_parts u,
          fragment,
          before_absent b'?' u query,
          from_byte_absent b'?' u query,
          no_index u index,
          undecoded u percent,
        )
        (finished mode)
