-- ===== src/Network/Frames/Segments.antt =====
-- A frame is received whole, however the stream is cut into segments.
use just_drop.Base.{
  ℕ, zero, suc, ◌+◌, ◌≤◌, ◌<◌, ◌≡◌, refl, sym, subst, ◌∙◌, true, false, List, [], ◌∷◌, ◌++◌, some,
  ok, leb, ltb, length, length-append, length-drop, take, drop, get_or, append_assoc, arith,
  Bool-cases, inl, inr, ◌^◌,
}
use just_drop.Core.Types.{max_message_size}
use just_drop.Security.Session.{Snow, decrypt}
use just_drop.Network.Frames.{
  Transport, to_be_bytes, from_be_bytes, fill, recv, read_frame, read_body, take_frame,
}

abbrev pub concat : List (List ℕ) → List ℕ
concat [] = []
concat (seg ∷ segs) = seg ++ concat segs

-- No read returns nothing before the end.
abbrev pub HasNoEmpty : List (List ℕ) → Type 0
HasNoEmpty [] = Unit {0}
HasNoEmpty (seg ∷ segs) = (0 < length seg) × HasNoEmpty segs

pub record Filled (need : ℕ) (buf : List ℕ) (segs : List (List ℕ)) : Type 0 where
  pub buffer : List ℕ
  pub left : List (List ℕ)
  pub runs : fill need buf segs ≡ (true, buffer, left)
  pub enough : need ≤ length buffer
  pub same : buffer ++ concat left ≡ buf ++ concat segs
  pub clean : HasNoEmpty left

pub fill-Filled :
    (need : ℕ) (buf : List ℕ) (segs : List (List ℕ))
    → HasNoEmpty segs
    → need ≤ length (buf ++ concat segs)
    → Filled need buf segs
unfolding fill
fill-Filled need buf [] n h = record {
  buffer = buf;
  left = [];
  runs = ground (arith, length-append buf []);
  enough = omega (arith, length-append buf []);
  same = refl;
  clean = tt;
}
fill-Filled need buf (seg ∷ segs) (n, ns) h = elim (Bool-cases (leb need (length buf))) [
  | inl full ↦ record {
    buffer = buf;
    left = seg ∷ segs;
    runs = rw full refl;
    enough = ground (arith, full);
    same = refl;
    clean = (n, ns);
  }
  | inr short ↦
      let f =
        fill-Filled need (buf ++ seg) segs ns
          (subst (λ l. need ≤ length l) (sym (append_assoc buf seg (concat segs))) h) in
      record {
        buffer = f.buffer;
        left = f.left;
        runs = ground (arith, short, n, f.runs);
        enough = f.enough;
        same = f.same ∙ append_assoc buf seg (concat segs);
        clean = f.clean;
      }
]

pub drop-append :
    (h z xs ys : List ℕ) → xs ++ ys ≡ h ++ z → length h ≤ length xs → drop (length h) xs ++ ys ≡ z
drop-append [] z xs ys e l = e
drop-append (b ∷ h) z [] ys e l = absurd (omega arith)
drop-append (b ∷ h) z (x ∷ xs) ys e l = drop-append h z xs ys (ground (arith, e)) (omega arith)

pub take-append :
    (h z xs ys : List ℕ) → xs ++ ys ≡ h ++ z → length h ≤ length xs → take (length h) xs ≡ h
take-append [] z xs ys e l = refl
take-append (b ∷ h) z [] ys e l = absurd (omega arith)
take-append (b ∷ h) z (x ∷ xs) ys e l =
    ground (arith, e, take-append h z xs ys (ground (arith, e)) (omega arith))

pub from_be_bytes-to_be_bytes : (n : ℕ) → n < 2 ^ 32 → from_be_bytes (to_be_bytes n) ≡ n
unfolding from_be_bytes to_be_bytes
from_be_bytes-to_be_bytes n h = omega arith

get_or-prefix :
    (h z xs ys : List ℕ) (i : ℕ)
    → xs ++ ys ≡ h ++ z
    → length h ≤ length xs
    → i < length h
    → get_or xs i 0 ≡ get_or h i 0
get_or-prefix [] z xs ys i e l b = absurd (omega arith)
get_or-prefix (c ∷ h) z [] ys i e l b = absurd (omega arith)
get_or-prefix (c ∷ h) z (x ∷ xs) ys zero e l b = ground (arith, e)
get_or-prefix (c ∷ h) z (x ∷ xs) ys (suc i) e l b =
    get_or-prefix h z xs ys i (ground (arith, e)) (omega arith) (omega arith)

pub from_be_bytes-prefix :
    (h z xs ys : List ℕ)
    → length h ≡ 4
    → xs ++ ys ≡ h ++ z
    → 4 ≤ length xs
    → from_be_bytes xs ≡ from_be_bytes h
unfolding from_be_bytes
from_be_bytes-prefix h z xs ys k e l = cc (
  get_or-prefix h z xs ys 0 e (omega arith) (omega arith),
  get_or-prefix h z xs ys 1 e (omega arith) (omega arith),
  get_or-prefix h z xs ys 2 e (omega arith) (omega arith),
  get_or-prefix h z xs ys 3 e (omega arith) (omega arith),
)

pub length-to_be_bytes : (n : ℕ) → length (to_be_bytes n) ≡ 4
unfolding to_be_bytes
length-to_be_bytes n = refl

recv-filled :
    (S : Snow) (t : Transport S) (c p b1 b2 : List ℕ) (l1 l2 : List (List ℕ)) (s : S.TransportState)
    → fill 4 t.read_buf t.segments ≡ (true, b1, l1)
    → from_be_bytes b1 ≡ length c
    → length c ≤ max_message_size
    → fill (4 + length c) b1 l1 ≡ (true, b2, l2)
    → take (length c) (drop 4 b2) ≡ c
    → decrypt S c t.session ≡ (ok p, s)
    → recv S t ≡ (
      ok (some p),
      record t { segments = l2; read_buf = drop (length c) (drop 4 b2); session = s },
    )
unfolding recv read_frame read_body take_frame
recv-filled S t c p b1 b2 l1 l2 s f len m g taken d =
    let small : ltb max_message_size (length c) ≡ false = ground (arith, m) in
    rw f (rw len (rw small (rw g (rw taken (rw d refl)))))

-- A frame that is on its way is received whole and handed to the session, and what follows it stays for
-- the next call, however the stream is cut into segments and whatever part was read before; the frame
-- is not over the limit, the session decrypts it, and no read returns nothing before the end.
pub recv-frame :
    (S : Snow) (t : Transport S) (c rest p : List ℕ) (s : S.TransportState)
    → HasNoEmpty t.segments
    → t.read_buf ++ concat t.segments ≡ to_be_bytes (length c) ++ (c ++ rest)
    → length c ≤ max_message_size
    → decrypt S c t.session ≡ (ok p, s)
    → (t' : Transport S) × (recv S t ≡ (ok (some p), t'))
      × (t'.read_buf ++ concat t'.segments ≡ rest)
      × (t'.session ≡ s)
      × HasNoEmpty t'.segments
recv-frame S t c rest p s n e m d =
    let h = to_be_bytes (length c) in
    let four : length h ≡ 4 = length-to_be_bytes (length c) in
    let all : length (t.read_buf ++ concat t.segments) ≡ 4 + (length c + length rest) =
      ground (arith, e, four, length-append h (c ++ rest), length-append c rest) in
    let f = fill-Filled 4 t.read_buf t.segments n (omega (arith, all)) in
    let e1 : f.buffer ++ concat f.left ≡ h ++ (c ++ rest) = f.same ∙ e in
    let len : from_be_bytes f.buffer ≡ length c =
      from_be_bytes-prefix h (c ++ rest) f.buffer (concat f.left) four e1 f.enough
      ∙ from_be_bytes-to_be_bytes (length c) (omega (arith, m)) in
    let g =
      fill-Filled (4 + length c) f.buffer f.left f.clean
        (subst (λ l. 4 + length c ≤ length l) (sym f.same) (omega (arith, all))) in
    let e2 : g.buffer ++ concat g.left ≡ h ++ (c ++ rest) = g.same ∙ e1 in
    let e3 : drop 4 g.buffer ++ concat g.left ≡ c ++ rest =
      subst (λ k. drop k g.buffer ++ concat g.left ≡ c ++ rest) four
        (drop-append h (c ++ rest) g.buffer (concat g.left) e2 (omega (arith, four, g.enough))) in
    let long : length c ≤ length (drop 4 g.buffer) =
      omega (arith, length-drop 4 g.buffer, g.enough) in
    let taken = take-append c rest (drop 4 g.buffer) (concat g.left) e3 long in
    (
      record t { segments = g.left; read_buf = drop (length c) (drop 4 g.buffer); session = s },
      recv-filled S t c p f.buffer g.buffer f.left g.left s f.runs len m g.runs taken d,
      drop-append c rest (drop 4 g.buffer) (concat g.left) e3 long,
      refl,
      g.clean,
    )
