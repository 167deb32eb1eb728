-- ===== src/Nvs/Start.antt =====
-- When `nvs_init` (firmware/src/nvs.c) succeeds.
use riceprobe.Base.{
  ℕ, ◌≡◌, ◌↔◌, refl, sym, ap, ◌∙◌, arith, Bool, true, false, Option, none, some, List, get_or, ◌/=◌,
  Bool-cases, ◌⊎◌, inl, inr,
}
use riceprobe.Base.Bits.{get_le16}
use riceprobe.Errno.{Result, Errno, ok, err, einval, eio, enotsup}
use riceprobe.Nvs.{Nvs, Flash, txt_record, load, init}

-- Flash that can be opened and read, with the tag and the version of the manufacturing data, and a serial number
-- that ends in its 32 bytes; these are the names that it holds.
pub record Accepted (opened : Bool) (flash : Flash) (nvs : Nvs) : Type 0 where
  pub tag : List ℕ
  pub version : List ℕ
  pub can_open : opened ≡ true
  pub tag_read : flash 0 2 ≡ some tag
  pub tag_is : get_le16 (get_or tag 0 0) (get_or tag 1 0) ≡ 0x7a5a
  pub version_read : flash 2 2 ≡ some version
  pub version_is : get_le16 (get_or version 0 0) (get_or version 1 0) ≡ 0x0101
  pub serial_read : flash 4 32 ≡ some nvs.serial_number
  pub ends : get_or nvs.serial_number 31 0 ≡ 0
  pub uuid_read : flash 36 16 ≡ some nvs.uuid
  pub record_is : nvs.dns_txt_record ≡ txt_record nvs.serial_number nvs.uuid

option_cases : {A : Type 0} (o : Option A) → (o ≡ none) ⊎ ((a : A) × (o ≡ some a))
option_cases none = inl refl
option_cases (some a) = inr (a, refl)

same : (a b : ℕ) → (a /= b) ≡ false → a ≡ b
same a b h = ground arith

abbrev got : Nvs → Result Nvs → Nvs
got other (ok nvs) = nvs
got other (err e) = other

refused : {A : Type 0} (e : Errno) (nvs : Nvs) → ◌≡◌ {A = Result Nvs} (err e) (ok nvs) → A
refused e nvs h = ground arith

accepts :
    (flash : Flash) (nvs : Nvs) (tag version : List ℕ)
    → flash 0 2 ≡ some tag
    → get_le16 (get_or tag 0 0) (get_or tag 1 0) ≡ 0x7a5a
    → flash 2 2 ≡ some version
    → get_le16 (get_or version 0 0) (get_or version 1 0) ≡ 0x0101
    → flash 4 32 ≡ some nvs.serial_number
    → get_or nvs.serial_number 31 0 ≡ 0
    → flash 36 16 ≡ some nvs.uuid
    → nvs.dns_txt_record ≡ txt_record nvs.serial_number nvs.uuid
    → init true flash ≡ ok nvs
unfolding init load
accepts flash nvs tag version t t' v v' s s' u r =
    rw (init, load, t, t', v, v', s, s', u, sym r) refl

-- The last checks, once the tag and the version are right.
names_accepted :
    (flash : Flash) (nvs : Nvs) (tag version : List ℕ)
    → flash 0 2 ≡ some tag
    → get_le16 (get_or tag 0 0) (get_or tag 1 0) ≡ 0x7a5a
    → flash 2 2 ≡ some version
    → get_le16 (get_or version 0 0) (get_or version 1 0) ≡ 0x0101
    → load flash ≡ ok nvs
    → Accepted true flash nvs
unfolding load
names_accepted flash nvs tag version t t' v v' h = elim (option_cases (flash 4 32)) [
  | inl e ↦ refused eio nvs (rw (load, t, t', v, v', e) at h)
  | inr (serial, e) ↦ (elim (Bool-cases (get_or serial 31 0 /= 0)) [
    | inl b ↦ refused einval nvs (rw (load, t, t', v, v', e, b) at h)
    | inr b ↦ (elim (option_cases (flash 36 16)) [
      | inl u ↦ refused eio nvs (rw (load, t, t', v, v', e, b, u) at h)
      | inr (uuid, u) ↦
          let made = ap (got nvs) (rw (load, t, t', v, v', e, b, u) at h) in
          record {
            tag = tag;
            version = version;
            can_open = refl;
            tag_read = t;
            tag_is = t';
            version_read = v;
            version_is = v';
            serial_read = e ∙ ap (λ n. some n.serial_number) made;
            ends = ap (λ n. get_or n.serial_number 31 0) (sym made) ∙ same _ 0 b;
            uuid_read = u ∙ ap (λ n. some n.uuid) made;
            record_is =
                ap (λ n. n.dns_txt_record) (sym made)
                ∙ ap (λ n. txt_record n.serial_number n.uuid) made;
          }
    ])
  ])
]

accepted :
    (opened : Bool) (flash : Flash) (nvs : Nvs)
    → init opened flash ≡ ok nvs
    → Accepted opened flash nvs
unfolding init load
accepted false flash nvs h = refused eio nvs h
accepted true flash nvs h = elim (option_cases (flash 0 2)) [
  | inl e ↦ refused eio nvs (rw (load, e) at h)
  | inr (tag, e) ↦ (elim (Bool-cases (get_le16 (get_or tag 0 0) (get_or tag 1 0) /= 0x7a5a)) [
    | inl b ↦ refused einval nvs (rw (load, e, b) at h)
    | inr b ↦ (elim (option_cases (flash 2 2)) [
      | inl e' ↦ refused eio nvs (rw (load, e, b, e') at h)
      | inr (version, e') ↦
          (elim (Bool-cases (get_le16 (get_or version 0 0) (get_or version 1 0) /= 0x0101)) [
            | inl b' ↦ refused enotsup nvs (rw (load, e, b, e', b') at h)
            | inr b' ↦ names_accepted flash nvs tag version e (same _ _ b) e' (same _ _ b') h
          ])
    ])
  ])
]

-- `nvs_init` succeeds exactly where the flash can be opened and read and holds the tag, the version and a serial
-- number that ends in its 32 bytes, and the names are then those of the flash, with the record made of them. So
-- flash that is erased or holds something else never gives a name.
pub init-accepts :
    (opened : Bool) (flash : Flash) (nvs : Nvs)
    → (init opened flash ≡ ok nvs) ↔ Accepted opened flash nvs
init-accepts opened flash nvs = (
  accepted opened flash nvs,
  λ a.
      ap (λ b. init b flash) a.can_open
      ∙ accepts flash nvs a.tag a.version a.tag_read a.tag_is a.version_read a.version_is
          a.serial_read a.ends a.uuid_read a.record_is,
)
