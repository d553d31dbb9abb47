-- ===== src/Tls.antt =====
-- crates/hygress-gateway/src/tls_store.rs, with `TlsConfig` of crates/hygress-core/src/config.rs:
-- the store of certificates by host and the lookup in it. The listener
-- of crates/hygress-gateway/src/bootstrap.rs does not use the store: it serves one certificate.
pub mod Served
use hygress.Common.{
  Str, codes, text_eq, to_ascii_lowercase, split_once, ℕ, ◌+◌, List, [], ◌∷◌, ◌++◌, Option, none,
  some, Bool, true, false, ◌&&◌, not, if◌then◌else◌, is_empty, is_some, length,
}
use hygress.Common.Dict
use hygress.Common.Dict.{lookup}
use hygress.Common.Results.{Result, ok, err, ◌>>=◌}

pub record TlsHost : Type 0 where
  pub host : Str
  pub is_default : Bool
  pub cert_pem : Str
  pub key_pem : Str

pub record TlsConfig : Type 0 where
  pub hosts : List TlsHost

-- The text of an error is only logged.
pub data TlsError : Type 0 where
  pem provider : TlsError

-- What is after the first dot.
abbrev suffix_of : Option (Str × Str) → Option Str
suffix_of none = none
suffix_of (some (label, rest)) = if is_empty rest then none else some (codes "*." ++ rest)

unfoldable pub wildcard_of : Str → Option Str
wildcard_of domain = suffix_of (split_once 46 domain)

-- The crates `rustls_pemfile` and `rustls`: the blocks of a PEM text, and a certificate chain with
-- its key.
pub record Crypto : Type 1 where
  pub CertificateDer : Type 0
  pub PrivateKeyDer : Type 0
  pub CertifiedKey : Type 0
  pub pem_certs : Str → List (Result Str CertificateDer)
  pub pem_private_key : Str → Result Str (Option PrivateKeyDer)
  pub from_der : List CertificateDer → PrivateKeyDer → Result Str CertifiedKey

pub record SniMap (C : Type 0) : Type 0 where
  pub by_name : List (Str × C)
  pub default : Option C

module _ {C : Type 0} where
  abbrev pub no_certs : SniMap C
  no_certs = record { by_name = []; default = none }

  -- A name that is there, and the names that are tried after it.
  abbrev name_in : List (Str × C) → Option Str → Option Str
  name_in names none = none
  name_in names (some w) = if is_some (lookup w names) then some w else none

  unfoldable pub match_name : Str → List (Str × C) → Option Str
  match_name host names =
      let h = to_ascii_lowercase host in
      if is_some (lookup h names) then some h else name_in names (wildcard_of h)

  unfoldable pub is_empty_map : SniMap C → Bool
  is_empty_map m = is_empty m.by_name && not (is_some m.default)

  unfoldable pub count_slots : SniMap C → ℕ
  count_slots m = length m.by_name + (if is_some m.default then 1 else 0)

  abbrev found_name : SniMap C → Option Str → Option C
  found_name m none = m.default
  found_name m (some key) = lookup key m.by_name

  unfoldable pub resolve : SniMap C → Option Str → Option C
  resolve m none = m.default
  resolve m (some host) = found_name m (match_name host m.by_name)

module _ (crypto : Crypto) where
  open crypto use {
    CertificateDer, PrivateKeyDer, CertifiedKey, pem_certs, pem_private_key, from_der,
  }

  -- The first failure, or all the certificates.
  abbrev all_certs : List (Result Str CertificateDer) → Result TlsError (List CertificateDer)
  all_certs [] = ok []
  all_certs (err e ∷ rs) = err pem
  all_certs (ok c ∷ rs) = do cs ← all_certs rs; ok (c ∷ cs)

  abbrev some_certs : List CertificateDer → Result TlsError (List CertificateDer)
  some_certs [] = err pem
  some_certs (c ∷ cs) = ok (c ∷ cs)

  abbrev one_key : Result Str (Option PrivateKeyDer) → Result TlsError PrivateKeyDer
  one_key (err e) = err pem
  one_key (ok none) = err pem
  one_key (ok (some k)) = ok k

  unfoldable pub parse_pem : Str → Str → Result TlsError (List CertificateDer × PrivateKeyDer)
  parse_pem cert_pem key_pem = do
    all ← all_certs (pem_certs cert_pem)
    certs ← some_certs all
    key ← one_key (pem_private_key key_pem)
    ok (certs, key)

  abbrev built : Result Str CertifiedKey → Option CertifiedKey
  built (err e) = none
  built (ok certified) = some certified

  abbrev certified_by : Result TlsError (List CertificateDer × PrivateKeyDer) → Option CertifiedKey
  certified_by (err e) = none
  certified_by (ok (certs, key)) = built (from_der certs key)

  -- The certificate of a host; where there is none, the host is skipped.
  unfoldable pub certified : TlsHost → Option CertifiedKey
  certified h = certified_by (parse_pem h.cert_pem h.key_pem)

  abbrev slot_in : SniMap CertifiedKey → TlsHost → Option CertifiedKey → SniMap CertifiedKey
  slot_in m h none = m
  slot_in m h (some slot) =
      if h.is_default
      then record m { default = some slot }
      else record m { by_name = Dict.insert (to_ascii_lowercase h.host) slot m.by_name }

  -- The loop of `store_config`.
  unfoldable pub store_hosts : SniMap CertifiedKey → List TlsHost → SniMap CertifiedKey
  store_hosts m [] = m
  store_hosts m (h ∷ hs) = store_hosts (slot_in m h (certified h)) hs

  -- The map that is stored, and the number of accepted slots.
  unfoldable pub store_config : TlsConfig → SniMap CertifiedKey × ℕ
  store_config tls = let m = store_hosts no_certs tls.hosts in (m, count_slots m)
