-- ===== src/Http/Dispatch/Tenants.antt =====
-- Tenants (http/http_loop.cpp, process): which requests read an object.
use goblin_store.Prelude.{
  arith, ap₂, [], ◌∷◌, ◌++◌, ◌↔◌, ◌⊎◌, ◌≢◌, ℕ, true, not, Option, none, some, ◌≡◌, Bool-cases, inl,
  inr, refl,
}
use goblin_store.Prelude.Bytes.{Bytes, same}
use goblin_store.Common.Types.{ByteRange}
use goblin_store.Http.Keys.{normalize_host, KeyOptions, derive_key}
use goblin_store.Http.Request.{Method, Request}
use goblin_store.Http.Response.{Conn, Piece}
use goblin_store.Http.Dispatch.{begin_get, leave, k421, refuse, dispatch, host_ok, process_request}
use goblin_store.Storage.Index.{Index}

-- The method and the key of a request that begins to read, and the other way round.
dispatch-begins :
    (c : Conn) (m : Method) (range : Option ByteRange) (o : Option Bytes) (ix : Index) (now : ℕ)
    (key : Bytes)
    → ((dispatch c m range o ix now).1 ≡ begin_get key ↔ ((m ≡ Method.get) × (o ≡ some key)))
      × (((dispatch c m range o ix now).0.req_range ≡ range)
          ⊎ ((dispatch c m range o ix now).1 ≢ begin_get key))
unfolding dispatch refuse
dispatch-begins c Method.get range none ix now key = ((λ h. cc, λ (m, e). cc), inr λ h. cc)
dispatch-begins c Method.get range (some k) ix now key = ((λ h. (refl, cc), λ (m, e). cc), inl refl)
dispatch-begins c Method.head range none ix now key = ((λ h. cc, λ (m, e). cc), inr λ h. cc)
dispatch-begins c Method.head range (some k) ix now key = ((λ h. cc, λ (m, e). cc), inr λ h. cc)
dispatch-begins c Method.other range o ix now key = ((λ h. cc, λ (m, e). cc), inr λ h. cc)

same-equal : (xs ys : Bytes) → same xs ys ≡ true → xs ≡ ys
unfolding same
same-equal [] [] h = refl
same-equal [] (b ∷ bs) h = absurd (cc)
same-equal (a ∷ xs) [] h = absurd (cc)
same-equal (a ∷ xs) (b ∷ bs) h =
    let e : a ≡ b = ground arith in
    let rest : same xs bs ≡ true = ground arith in ap₂ (λ c cs. c ∷ cs) e (same-equal xs bs rest)

same_refl : (xs : Bytes) → same xs xs ≡ true
unfolding same
same_refl [] = refl
same_refl (a ∷ xs) = ground (arith, same_refl xs)

-- The handshake named no host, or the one that the request is for.
abbrev pub Addressed : Bytes → Bytes → Type 0
Addressed sni host = (sni ≡ []) ⊎ (normalize_host host ≡ sni)

host_ok-Addressed : (sni host : Bytes) → host_ok sni host ≡ true → Addressed sni host
unfolding host_ok
host_ok-Addressed [] host h = inl refl
host_ok-Addressed (s ∷ sni) host h = inr (same-equal (normalize_host host) (s ∷ sni) h)

Addressed-host_ok : (sni host : Bytes) → Addressed sni host → host_ok sni host ≡ true
unfolding host_ok
Addressed-host_ok [] host a = refl
Addressed-host_ok (s ∷ sni) host (inl e) = absurd (cc)
Addressed-host_ok (s ∷ sni) host (inr e) = rw e (same_refl (s ∷ sni))

-- A request goes on to read the object of a key for its body exactly if it is a GET, the handshake named
-- no host or the request's, and the key is the one derived of its host and its target. The range that is
-- kept then is its own. A request for another host than the handshake's gets the answer 421 and the end
-- of its connection, whatever its method.
pub process_request-begin_get :
    (c : Conn) (sni : Bytes) (req : Request) (opt : KeyOptions) (ix : Index) (now : ℕ) (key : Bytes)
    → ((process_request c sni req opt ix now).1 ≡ begin_get key ↔ (
        Addressed sni req.host
        × (req.method ≡ Method.get)
        × (derive_key req.host req.target opt ≡ some key)))
      × (((process_request c sni req opt ix now).0.req_range ≡ req.range)
          ⊎ ((process_request c sni req opt ix now).1 ≢ begin_get key))
      × (Addressed sni req.host
          ⊎ (((process_request c sni req opt ix now).1 ≡ leave)
              × ((process_request c sni req opt ix now).0.out ≡ c.out ++ Piece.text k421 ∷ [])
              × ((process_request c sni req opt ix now).0.quit_after ≡ true)))
unfolding process_request refuse dispatch
process_request-begin_get c sni req opt ix now key =
    let c1 = record c { quit_after = not req.keep_alive; inm = req.if_none_match } in
    let o = derive_key req.host req.target opt in
    elim (Bool-cases (host_ok sni req.host)) [
      | inl named ↦
          let d = dispatch-begins c1 req.method req.range o ix now key in
          let addressed = host_ok-Addressed sni req.host named in
          rw named (
            (λ h. let (m, e) = d.0.0 h in (addressed, m, e), λ (a, m, e). d.0.1 (m, e)),
            d.1,
            inl addressed,
          )
      | inr misdirected ↦ rw misdirected (
        (λ h. cc, λ (a, m, e). absurd (ground (arith, Addressed-host_ok sni req.host a))),
        inr (λ h. cc),
        inr (refl, refl, refl),
      )
    ]
