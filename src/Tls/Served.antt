-- ===== src/Tls/Served.antt =====
-- From the configured certificates to the one that the store finds.
use hygress.Common.{
  ◌≡◌, refl, ap, ◌∙◌, Str, codes, str_eq, text_eq, to_ascii_lowercase, split_once, is_empty, ◌==◌,
  ==_iff, ◌++◌, List, [], ◌∷◌, Option, none, some, Bool, ◌&&◌, not, if◌then◌else◌, arith,
  Option-cases, Bool-cases, inl, inr,
}
use hygress.Common.Dict.{lookup, lookup-insert}
use hygress.Tls.{
  Crypto, TlsHost, TlsConfig, SniMap, no_certs, wildcard_of, match_name, resolve, certified,
  slot_in, store_hosts, store_config,
}

abbrev pub or_cert {ℓ} : {C : Type ℓ} → Option C → Option C → Option C
or_cert none b = b
or_cert (some a) b = some a

module _ (crypto : Crypto) where
  -- The last host with the property whose certificate can be built.
  abbrev pub last_cert : (TlsHost → Bool) → List TlsHost → Option crypto.CertifiedKey
  last_cert p [] = none
  last_cert p (h ∷ hs) = or_cert (last_cert p hs) (if p h then certified crypto h else none)

  abbrev pub is_named : Str → TlsHost → Bool
  is_named name h = not h.is_default && str_eq (to_ascii_lowercase h.host) name

  slot_in-by_name :
      (m : SniMap crypto.CertifiedKey) (h : TlsHost) (o : Option crypto.CertifiedKey) (k : Str)
      → lookup k (slot_in crypto m h o).by_name
        ≡ or_cert (if is_named k h then o else none) (lookup k m.by_name)
  slot_in-by_name m h none k = ground arith
  slot_in-by_name m h (some c) k =
      ground (arith, lookup-insert (to_ascii_lowercase h.host) k c m.by_name)

  slot_in-default :
      (m : SniMap crypto.CertifiedKey) (h : TlsHost) (o : Option crypto.CertifiedKey)
      → (slot_in crypto m h o).default ≡ or_cert (if h.is_default then o else none) m.default
  slot_in-default m h none = ground arith
  slot_in-default m h (some c) = ground arith

  or_cert-or_cert :
      (a b c : Option crypto.CertifiedKey) → or_cert a (or_cert b c) ≡ or_cert (or_cert a b) c
  or_cert-or_cert none b c = refl
  or_cert-or_cert (some x) b c = refl

  or_cert-none : (a : Option crypto.CertifiedKey) → or_cert a none ≡ a
  or_cert-none none = refl
  or_cert-none (some x) = refl

  store_hosts-by_name :
      (hs : List TlsHost) (m : SniMap crypto.CertifiedKey) (k : Str)
      → lookup k (store_hosts crypto m hs).by_name
        ≡ or_cert (last_cert (is_named k) hs) (lookup k m.by_name)
  unfolding store_hosts
  store_hosts-by_name [] m k = refl
  store_hosts-by_name (h ∷ hs) m k =
      let o = certified crypto h in
      store_hosts-by_name hs (slot_in crypto m h o) k
      ∙ ap (or_cert (last_cert (is_named k) hs)) (slot_in-by_name m h o k)
      ∙ or_cert-or_cert (last_cert (is_named k) hs) (if is_named k h then o else none)
          (lookup k m.by_name)

  store_hosts-default :
      (hs : List TlsHost) (m : SniMap crypto.CertifiedKey)
      → (store_hosts crypto m hs).default ≡ or_cert (last_cert (λ h. h.is_default) hs) m.default
  unfolding store_hosts
  store_hosts-default [] m = refl
  store_hosts-default (h ∷ hs) m =
      let o = certified crypto h in
      store_hosts-default hs (slot_in crypto m h o)
      ∙ ap (or_cert (last_cert (λ h. h.is_default) hs)) (slot_in-default m h o)
      ∙ or_cert-or_cert (last_cert (λ h. h.is_default) hs) (if h.is_default then o else none)
          m.default

  abbrev last_of_wildcard : Option Str → List TlsHost → Option crypto.CertifiedKey
  last_of_wildcard none hs = none
  last_of_wildcard (some w) hs = last_cert (is_named w) hs

  -- The last host that is `*` with the text from the first dot on, where something is after it.
  abbrev pub covering_cert : Str → List TlsHost → Option crypto.CertifiedKey
  covering_cert [] hs = none
  covering_cert (c ∷ s) hs =
      if c == 46
      then (if is_empty s then none else last_cert (is_named (codes "*" ++ c ∷ s)) hs)
      else covering_cert s hs

  wildcard-covering_cert :
      (name : Str) (hs : List TlsHost)
      → last_of_wildcard (wildcard_of name) hs ≡ covering_cert name hs
  unfolding wildcard_of split_once
  wildcard-covering_cert [] hs = refl
  wildcard-covering_cert (c ∷ s) hs = elim (Bool-cases (c == 46)) [
    | inl e ↦
        let q = (==_iff c 46).0 e in
        rw (e, q) (elim (Bool-cases (is_empty s)) [ inl z ↦ rw z refl | inr z ↦ rw z refl ])
    | inr e ↦ rw e (elim (Option-cases (split_once 46 s)) [
      | inl z ↦ ground (arith, z, wildcard-covering_cert s hs)
      | inr (parts, z) ↦ ground (arith, z, wildcard-covering_cert s hs)
    ])
  ]

  -- The store that a configuration fills finds for a name the certificate of the last host of that
  -- name, whatever the case of the letters, of the last host that is `*` with the name from its first
  -- dot on, or the default one: each the last that could be built, so that a broken entry has no
  -- effect on any name.
  pub resolve-store_config :
      (tls : TlsConfig) (host : Str)
      → let name = to_ascii_lowercase host in
        resolve (store_config crypto tls).0 (some host)
        ≡ or_cert
            (last_cert (is_named name) tls.hosts)
            (or_cert (covering_cert name tls.hosts) (last_cert (λ h. h.is_default) tls.hosts))
  unfolding resolve store_config match_name lookup
  resolve-store_config tls host =
      let name = to_ascii_lowercase host in
      let here =
        store_hosts-by_name tls.hosts no_certs name
        ∙ or_cert-none (last_cert (is_named name) tls.hosts) in
      let fallback =
        store_hosts-default tls.hosts no_certs
        ∙ or_cert-none (last_cert (λ h. h.is_default) tls.hosts) in
      let covering = wildcard-covering_cert name tls.hosts in
      elim (Option-cases (wildcard_of name)) [
        | inl e ↦ ground (arith, here, fallback, e, covering)
        | inr (w, e) ↦
            let wild =
              store_hosts-by_name tls.hosts no_certs w
              ∙ or_cert-none (last_cert (is_named w) tls.hosts) in
            ground (arith, here, fallback, e, wild, covering)
      ]
