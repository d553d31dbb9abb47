-- ===== src/Destination/RoundTrip.antt =====
-- Service references: printed as `name.type:port` and read back.
use hygress.Common.{
  ◌≡◌, ◌≢◌, refl, sym, ap, ◌∙◌, subst, Str, codes, ℕ, ◌≤◌, List, [], ◌∷◌, ◌++◌, append_assoc,
  Option, none, some, Bool, true, false, is_empty, unwrap_or, show_uint, parse_uint, u16_max, trim,
  is_whitespace, is_digit, All, arith, if◌then◌else◌,
}
use hygress.Common.Results.{ok}
use hygress.Common.Tokens.{Without, NoSpace, rsplit_once-append, rsplit_once-none, trim-NoSpace}
use hygress.Common.Decimal.{AllDigits, show_uint-AllDigits, show_uint-ne-nil, parse_uint-show_uint}
use hygress.Destination.{
  ServiceType, static, dns, proxy, tunnel, suffix, from_suffix, ServiceRef, service_name,
  service_name_with_port, split_port, parse_name_type, parse_service_with_port,
}

-- A name that `rfind('.')` can return whole: not empty, and without white space.
pub record IsServiceName (name : Str) : Type 0 where
  pub ne : name ≢ []
  pub no_space : NoSpace name

from_suffix-suffix : (k : ServiceType) → from_suffix (suffix k) ≡ some k
unfolding from_suffix hygress.Common.str_eq
from_suffix-suffix static = refl
from_suffix-suffix dns = refl
from_suffix-suffix proxy = refl
from_suffix-suffix tunnel = refl

suffix-plain :
    (k : ServiceType) → Without 46 (suffix k) × Without 58 (suffix k) × NoSpace (suffix k)
unfolding is_whitespace
suffix-plain static = ground arith
suffix-plain dns = ground arith
suffix-plain proxy = ground arith
suffix-plain tunnel = ground arith

is_empty-ne : (s : Str) → s ≢ [] → is_empty s ≡ false
is_empty-ne [] h = absurd (h refl)
is_empty-ne (_ ∷ _) h = refl

suffix-not_empty : (k : ServiceType) → is_empty (suffix k) ≡ false
suffix-not_empty static = refl
suffix-not_empty dns = refl
suffix-not_empty proxy = refl
suffix-not_empty tunnel = refl

parse_name_type-service_name :
    (r : ServiceRef) (port : Option ℕ)
    → r.name ≢ []
    → parse_name_type (service_name r) port ≡ ok (record r { port = port })
unfolding parse_name_type
parse_name_type-service_name r port h =
    rw (rsplit_once-append 46 r.name (suffix r.kind) (suffix-plain r.kind).0) (
      rw (is_empty-ne r.name h)
        (rw (suffix-not_empty r.kind) (rw (from_suffix-suffix r.kind) refl)))

digit-plain : (c : ℕ) → is_digit c ≡ true → (c ≢ 46) × (c ≢ 58) × (is_whitespace c ≡ false)
unfolding is_digit is_whitespace
digit-plain c h = ground arith

digits-plain : (s : Str) → AllDigits s → Without 46 s × Without 58 s × NoSpace s
digits-plain [] h = (tt, tt, tt)
digits-plain (c ∷ s) (d, h) = ground (arith, digit-plain c d, digits-plain s h)

NoSpace-append : (a b : Str) → NoSpace a → NoSpace b → NoSpace (a ++ b)
NoSpace-append [] b h k = k
NoSpace-append (x ∷ a) b (p, h) k = (p, NoSpace-append a b h k)

Without-append : (c : ℕ) (a b : Str) → Without c a → Without c b → Without c (a ++ b)
Without-append c [] b h k = k
Without-append c (x ∷ a) b (p, h) k = (p, Without-append c a b h k)

colon-plain : is_whitespace 58 ≡ false
unfolding is_whitespace
colon-plain = refl

service_name-NoSpace : (r : ServiceRef) → NoSpace r.name → NoSpace (service_name r)
unfolding is_whitespace
service_name-NoSpace r h =
    NoSpace-append r.name (46 ∷ suffix r.kind) h (refl, (suffix-plain r.kind).2)

append-cons-ne-nil : (a b : Str) → a ++ 46 ∷ b ≢ []
append-cons-ne-nil [] b = λ e. cc
append-cons-ne-nil (x ∷ a) b = λ e. cc

append-not_empty : (a b : Str) → a ≢ [] → is_empty (a ++ b) ≡ false
append-not_empty [] b h = absurd (h refl)
append-not_empty (x ∷ a) b h = refl

service_name-ne-nil : (r : ServiceRef) → service_name r ≢ []
service_name-ne-nil r = append-cons-ne-nil r.name (suffix r.kind)

-- A reference printed with its port, or with the port 80 where it has none, is read back with
-- that port: the name is not empty and holds no white space, and the port is a `u16`.
pub parse_service_with_port-service_name_with_port :
    (r : ServiceRef)
    → IsServiceName r.name
    → unwrap_or r.port 80 ≤ u16_max
    → parse_service_with_port (service_name_with_port r)
      ≡ ok (record r { port = some (unwrap_or r.port 80) })
unfolding parse_service_with_port split_port
parse_service_with_port-service_name_with_port r w bound =
    let port = unwrap_or r.port 80 in
    let digits = digits-plain (show_uint port) (show_uint-AllDigits port) in
    let blanks =
      NoSpace-append (service_name r) (58 ∷ show_uint port) (service_name-NoSpace r w.no_space)
        (colon-plain, digits.2) in
    rw (trim-NoSpace (service_name_with_port r) blanks) (
      rw (append-not_empty (service_name r) (58 ∷ show_uint port) (service_name-ne-nil r)) (
        rw (rsplit_once-append 58 (service_name r) (show_uint port) digits.1) (
          rw (is_empty-ne (show_uint port) (show_uint-ne-nil port)) (
            rw (parse_uint-show_uint u16_max port bound)
              (parse_name_type-service_name r (some port) w.ne)))))

-- A reference without a port is read back as it is, where its name holds no colon either.
pub parse_service_with_port-service_name :
    (r : ServiceRef)
    → IsServiceName r.name
    → Without 58 r.name
    → parse_service_with_port (service_name r) ≡ ok (record r { port = none })
unfolding parse_service_with_port split_port
parse_service_with_port-service_name r w no_colon =
    rw (trim-NoSpace (service_name r) (service_name-NoSpace r w.no_space)) (
      rw (append-not_empty r.name (46 ∷ suffix r.kind) w.ne) (
        rw
          (rsplit_once-none 58 (service_name r) (
            Without-append 58 r.name (46 ∷ suffix r.kind) no_colon
              (λ e. ground arith, (suffix-plain r.kind).1)))
          (parse_name_type-service_name r none w.ne)))
