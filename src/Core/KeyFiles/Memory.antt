-- ===== src/Core/KeyFiles/Memory.antt =====
-- Key files in memory, with any JSON of the stored type. It shows that the assumptions can be met.
use just_drop.Base.{
  ℕ, ◌≡◌, refl, ap, String, Bool, true, false, Option, none, some, Result, ok, err, if◌then◌else◌,
  str_eq, eq_refl, arith,
}
use Prim.Native.String.{◌++◌ as str_append}
use just_drop.Core.KeyFiles.{KeyFiles, IsKeeping}

pub record Disk : Type 0 where
  pub text : String → Option String
  pub mode : String → ℕ

abbrev is_some : Option String → Bool
is_some none = false
is_some (some t) = true

abbrev read_result : Option String → Result ℕ String
read_result none = err 2
read_result (some t) = ok t

abbrev pub put {ℓ} : {A : Type ℓ} → (String → A) → String → A → String → A
put f p a q = if str_eq p q then a else f q

put_self {ℓ} : {A : Type ℓ} (f : String → A) (p : String) (a : A) → put f p a p ≡ a
put_self f p a = rw (eq_refl p)

read_back :
    (o : Option String) {s s' : Disk} {t : String}
    → ◌≡◌ {A = Result ℕ String × Disk} (read_result o, s) (ok t, s')
    → (o ≡ some t) × (s'.text ≡ s.text)
read_back none h = absurd (ground (arith, h))
read_back (some u) h = (ground (arith, h), ground (arith, h))

module _ {Stored : Type 0} (to_string : Stored → Result ℕ String)
    (from_str : String → Option Stored) where
  abbrev pub memory_key_files : KeyFiles Stored
  memory_key_files = record {
    Fs = Disk;
    exists = λ p s. is_some (s.text p);
    parent = λ p. none;
    join = λ d p. str_append d p;
    create_dir_all = λ p s. (ok tt, s);
    read_to_string = λ p s. (read_result (s.text p), s);
    write = λ p t s. (ok tt, record s { text = put s.text p (some t) });
    set_permissions = λ p m s. (ok tt, record s { mode = put s.mode p m });
    to_string_pretty = to_string;
    from_str = from_str;
    text_of = λ s. s.text;
    mode_of = λ s. s.mode;
  }

  pub memory_key_files-IsKeeping :
      ((x : Stored) (t : String) → to_string x ≡ ok t → from_str t ≡ some x)
      → IsKeeping memory_key_files
  memory_key_files-IsKeeping parses = record {
    exists_lem = λ p s e. ap is_some e;
    reads = λ p s e. (s, ap (λ o. (read_result o, s)) e, refl);
    read_only = λ p s e. read_back (s.text p) e;
    writes = λ p t s {s'} e.
        let same : record s { text = put s.text p (some t) } ≡ s' = cc in
        rw (← same) (put_self s.text p (some t));
    set_permissions_lem = λ p m s {s'} e.
        let same : record s { mode = put s.mode p m } ≡ s' = cc in
        (rw (← same) refl, rw (← same) (put_self s.mode p m));
    from_str-to_string_pretty = λ x {t} e. parses x t e;
  }
