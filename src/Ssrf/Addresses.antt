-- ===== src/Ssrf/Addresses.antt =====
-- src/lib/ssrf.ts: what is said of an IPv4 address in dotted decimals.
use x402_agent_suite.Base.{
  number_from, number, ℕ, ◌+◌, ◌/◌, ◌%◌, ◌≤◌, ◌<◌, ◌≡◌, refl, sym, ap, ◌∙◌, inl, inr, true, false,
  not, ◌&&◌, [], ◌∷◌, ◌++◌, some, Text, text, text_eq, lower, lower_code, starts_with,
  starts_with_sound, includes, All-append, All, split_dots, NoDot, split_dots-NoDot,
  split_dots-part, ltb, leb, le→leb, Bool-cases, some_inj, if◌then◌else◌, arith,
}
use x402_agent_suite.Ssrf.{Net, reserved_range, reserved_parts, is_private_or_reserved_ip}

-- A number below 1000 in decimals.
abbrev pub decimal : ℕ → Text
decimal n =
    if ltb n 10
    then (b'0' + n) ∷ []
    else if ltb n 100
    then (b'0' + n / 10) ∷ (b'0' + n % 10) ∷ []
    else (b'0' + n / 100) ∷ (b'0' + n / 10 % 10) ∷ (b'0' + n % 10) ∷ []

abbrev pub dotted : ℕ → ℕ → ℕ → ℕ → Text
dotted a b c d = decimal a ++ (b'.' ∷ (decimal b ++ (b'.' ∷ (decimal c ++ (b'.' ∷ decimal d)))))

-- Digits only.
abbrev pub IsDigits : Text → Type 0
IsDigits t = All (λ c. (b'0' ≤ c) × (c ≤ b'9')) t

decimal-IsDigits : (n : ℕ) → n < 1000 → IsDigits (decimal n)
decimal-IsDigits n h = ground arith

number-decimal : (n : ℕ) → n < 1000 → number (decimal n) ≡ some n
unfolding number_from
number-decimal n h = ground arith

IsDigits-NoDot : (t : Text) → IsDigits t → NoDot t
IsDigits-NoDot [] h = tt
IsDigits-NoDot (c ∷ t) h =
    ((λ e. let f = h.0 in absurd (omega (arith, f, e))), IsDigits-NoDot t h.1)

split_dots-dotted :
    (a b c d : ℕ)
    → a < 1000
    → b < 1000
    → c < 1000
    → d < 1000
    → split_dots [] (dotted a b c d) ≡ decimal a ∷ decimal b ∷ decimal c ∷ decimal d ∷ []
split_dots-dotted a b c d ha hb hc hd =
    split_dots-part [] (decimal a) _ (plain a ha)
    ∙ ap (λ r. decimal a ∷ r)
        (split_dots-part [] (decimal b) _ (plain b hb)
          ∙ ap (λ r. decimal b ∷ r)
              (split_dots-part [] (decimal c) _ (plain c hc)
                ∙ ap (λ r. decimal c ∷ r) (split_dots-NoDot [] (decimal d) (plain d hd))))
  where
    plain : (n : ℕ) → n < 1000 → NoDot (decimal n)
    plain n h = IsDigits-NoDot (decimal n) (decimal-IsDigits n h)

-- No code above that of the digit 9.
abbrev pub IsPlain : Text → Type 0
IsPlain t = All (λ c. c ≤ b'9') t

IsDigits-IsPlain : (t : Text) → IsDigits t → IsPlain t
IsDigits-IsPlain [] h = tt
IsDigits-IsPlain (c ∷ t) h = (h.0.1, IsDigits-IsPlain t h.1)

dotted-IsPlain :
    (a b c d : ℕ) → a < 1000 → b < 1000 → c < 1000 → d < 1000 → IsPlain (dotted a b c d)
dotted-IsPlain a b c d ha hb hc hd =
    joined a ha _
      (omega arith, joined b hb _ (omega arith, joined c hc _ (omega arith, plain d hd)))
  where
    plain : (n : ℕ) → n < 1000 → IsPlain (decimal n)
    plain n h = IsDigits-IsPlain (decimal n) (decimal-IsDigits n h)

    joined : (n : ℕ) → n < 1000 → (t : Text) → IsPlain t → IsPlain (decimal n ++ t)
    joined n h t k = All-append (λ c. c ≤ b'9') (decimal n) t (plain n h) k

lower-plain : (t : Text) → IsPlain t → lower t ≡ t
unfolding lower lower_code
lower-plain [] h = refl
lower-plain (c ∷ t) h = ground (arith, h.0, lower-plain t h.1)

text_eq-plain : (t : Text) (c : ℕ) (s : Text) → b'9' < c → IsPlain t → text_eq t (c ∷ s) ≡ false
unfolding text_eq
text_eq-plain [] c s lt h = refl
text_eq-plain (a ∷ t) c s lt h = ground (arith, h.0)

starts_with-plain :
    (t : Text) (c : ℕ) (s : Text) → b'9' < c → IsPlain t → starts_with t (c ∷ s) ≡ false
unfolding starts_with
starts_with-plain [] c s lt h = refl
starts_with-plain (a ∷ t) c s lt h = ground (arith, h.0)

includes-plain : (t : Text) (c : ℕ) (s : Text) → b'9' < c → IsPlain t → includes t (c ∷ s) ≡ false
unfolding includes
includes-plain [] c s lt h = refl
includes-plain (a ∷ t) c s lt h =
    let first = starts_with-plain (a ∷ t) c s lt h in
    let later = includes-plain t c s lt h.1 in rw (first, later) refl

reserved_parts-decimal :
    (a b c d : ℕ)
    → a ≤ 255
    → b ≤ 255
    → c ≤ 255
    → d ≤ 255
    → reserved_parts (decimal a ∷ decimal b ∷ decimal c ∷ decimal d ∷ []) ≡ reserved_range a b
unfolding reserved_parts
reserved_parts-decimal a b c d ha hb hc hd =
    let ea = number-decimal a (omega arith) in
    let eb = number-decimal b (omega arith) in
    let ec = number-decimal c (omega arith) in
    let ed = number-decimal d (omega arith) in rw (ea, eb, ec, ed) (octets a b c d ha hb hc hd)
  where
    octets :
        (a b c d : ℕ)
        → a ≤ 255
        → b ≤ 255
        → c ≤ 255
        → d ≤ 255
        → (if not (leb a 255 && (leb b 255 && (leb c 255 && leb d 255)))
            then true
            else reserved_range a b)
          ≡ reserved_range a b
    octets a b c d ha hb hc hd =
        rw (le→leb a 255 ha, le→leb b 255 hb, le→leb c 255 hc, le→leb d 255 hd) refl

-- 169.254.0.0/16 by the text in front.
link_local_prefix :
    (a b c d : ℕ)
    → a < 1000
    → b < 1000
    → c < 1000
    → d < 1000
    → starts_with (dotted a b c d) (text "169.254.") ≡ true
    → reserved_range a b ≡ true
link_local_prefix a b c d ha hb hc hd h =
    let (u, e) = starts_with_sound (dotted a b c d) (text "169.254.") h in
    let parts = sym (split_dots-dotted a b c d ha hb hc hd) ∙ ap (split_dots []) e in
    let same_a : decimal a ≡ text "169" = cc (parts, prefix_parts u) in
    let same_b : decimal b ≡ text "254" = cc (parts, prefix_parts u) in
    let is_a : a ≡ 169 = some_inj (sym (number-decimal a ha) ∙ (ap number same_a ∙ value_a)) in
    let is_b : b ≡ 254 = some_inj (sym (number-decimal b hb) ∙ (ap number same_b ∙ value_b)) in
    rw (is_a, is_b) link_local
  where
    prefix_parts :
        (u : Text)
        → split_dots [] (text "169.254." ++ u) ≡ text "169" ∷ text "254" ∷ split_dots [] u
    prefix_parts u = unfold split_dots in refl

    value_a : number (text "169") ≡ some 169
    value_a = unfold number_from in refl

    value_b : number (text "254") ≡ some 254
    value_b = unfold number_from in refl

    link_local : reserved_range 169 254 ≡ true
    link_local = unfold reserved_range in refl

private_of_parts :
    (net : Net) (ip : Text)
    → IsPlain ip
    → net.is_ip ip ≡ true
    → (starts_with ip (text "169.254.") ≡ true → reserved_parts (split_dots [] ip) ≡ true)
    → is_private_or_reserved_ip net ip ≡ reserved_parts (split_dots [] ip)
unfolding is_private_or_reserved_ip
private_of_parts net ip plain known link =
    let loopback = text_eq-plain ip b':' (text ":1") (omega arith) plain in
    let fe80 = starts_with-plain ip b'f' (text "e80:") (omega arith) plain in
    let fc = starts_with-plain ip b'f' (text "c") (omega arith) plain in
    let fd = starts_with-plain ip b'f' (text "d") (omega arith) plain in
    let colon = includes-plain ip b':' [] (omega arith) plain in
    let small = lower-plain ip plain in
    rw (loopback, small, fe80, fc, fd)
      (elim (Bool-cases (starts_with ip (text "169.254."))) [
        | inl near ↦ rw near (sym (link near))
        | inr far ↦ rw (far, known, colon) refl
      ])

-- Of an IPv4 address, four numbers up to 255, that `isIP` knows as one, the first two numbers decide: it
-- is refused exactly in the networks 0/8, 10/8, 127/8, 169.254/16, 172.16/12, 192.168/16 and 100.64/10.
pub is_private-dotted :
    (net : Net) (a b c d : ℕ)
    → a ≤ 255
    → b ≤ 255
    → c ≤ 255
    → d ≤ 255
    → net.is_ip (dotted a b c d) ≡ true
    → is_private_or_reserved_ip net (dotted a b c d) ≡ reserved_range a b
is_private-dotted net a b c d ha hb hc hd known =
    let parts =
      ap reserved_parts
        (split_dots-dotted a b c d (omega arith) (omega arith) (omega arith) (omega arith))
      ∙ reserved_parts-decimal a b c d ha hb hc hd in
    private_of_parts net (dotted a b c d)
      (dotted-IsPlain a b c d (omega arith) (omega arith) (omega arith) (omega arith)) known
      (λ near.
        parts
        ∙ link_local_prefix a b c d (omega arith) (omega arith) (omega arith) (omega arith) near)
    ∙ parts

-- The private and reserved networks, by the first two numbers of an address.
pub data IsReserved (a b : ℕ) : Type 0 where
  this_network : a ≡ 0 → IsReserved a b
  ten : a ≡ 10 → IsReserved a b
  loopback : a ≡ 127 → IsReserved a b
  link_local : a ≡ 169 → b ≡ 254 → IsReserved a b
  private_172 : a ≡ 172 → 16 ≤ b → b ≤ 31 → IsReserved a b
  private_192 : a ≡ 192 → b ≡ 168 → IsReserved a b
  carrier_nat : a ≡ 100 → 64 ≤ b → b ≤ 127 → IsReserved a b

pub reserved_range-IsReserved : (a b : ℕ) → IsReserved a b → reserved_range a b ≡ true
unfolding reserved_range
reserved_range-IsReserved a b (this_network e) = ground (arith, e)
reserved_range-IsReserved a b (ten e) = ground (arith, e)
reserved_range-IsReserved a b (loopback e) = ground (arith, e)
reserved_range-IsReserved a b (link_local e f) = ground (arith, e, f)
reserved_range-IsReserved a b (private_172 e f g) = ground (arith, e, f, g)
reserved_range-IsReserved a b (private_192 e f) = ground (arith, e, f)
reserved_range-IsReserved a b (carrier_nat e f g) = ground (arith, e, f, g)
