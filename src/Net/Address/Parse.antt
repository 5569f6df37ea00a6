-- ===== src/Net/Address/Parse.antt =====
-- Which texts `parse_address` accepts, and with which result.
use mart_common.Prelude.{
  ℕ, ◌+◌, ◌≤◌, ◌≡◌, refl, sym, ap, ◌∙◌, ◌↔◌, false, ◌||◌, [], ◌∷◌, ◌++◌, some, length,
  length-append, Bool-cases, inl, inr, arith,
}
use mart_common.Text.{Bytes}
use mart_common.Text.Decimal.{
  to_string, to_string-Digits, length-to_string, spelled-to_string, to_string-ne-nil, Digits,
  Digits-Lacks,
}
use mart_common.Net.Address.{
  dot, count_dots, is_malformed, has_wrong_length, has_invalid_char, has_wrong_block_count,
  accumulate, parse_address,
}
use mart_common.Net.Address.Blocks.{Blocks, split_blocks_lem, Blocks-exist, count_dots-Blocks}
use mart_common.Net.Address.Octets.{
  IsOctet, parse_block-IsOctet, valid-Digits, Digits-valid, valid-append, word, accumulate-word,
  accumulate-some,
}

-- The texts of an address: four blocks of at most three digits with values up to 255, joined by
-- dots, seven bytes or more in all; `v` is the word they make, the first block highest.
pub record Reads (str : Bytes) (v : ℕ) : Type 0 where
  pub first : Bytes
  pub second : Bytes
  pub third : Bytes
  pub fourth : Bytes
  pub blocks : Blocks str first second third fourth
  pub a : ℕ
  pub b : ℕ
  pub c : ℕ
  pub d : ℕ
  pub octet_a : IsOctet first a
  pub octet_b : IsOctet second b
  pub octet_c : IsOctet third c
  pub octet_d : IsOctet fourth d
  pub long : 7 ≤ length str
  pub is_word : v ≡ word a b c d

valid_joined :
    (s t : Bytes) → has_invalid_char (s ++ dot ∷ t) ≡ (has_invalid_char s || has_invalid_char t)
valid_joined s t = valid-append s (dot ∷ t) ∙ unfold has_invalid_char in refl

length_joined : (s t : Bytes) → length (s ++ dot ∷ t) ≡ length s + length t + 1
length_joined s t = omega (arith, length-append s (dot ∷ t))

valid-Blocks :
    {str a b c d : Bytes}
    → Blocks str a b c d
    → (has_invalid_char str ≡ (
        has_invalid_char a || (has_invalid_char b || (has_invalid_char c || has_invalid_char d))))
      × (length str ≡ length a + length b + length c + length d + 3)
valid-Blocks {str} {a} {b} {c} {d} v = (
  ap has_invalid_char v.joined ∙ rw (valid_joined a, valid_joined b, valid_joined c),
  ap length v.joined
      ∙ omega (
        arith,
        length_joined a (b ++ dot ∷ (c ++ dot ∷ d)),
        length_joined b (c ++ dot ∷ d),
        length_joined c d,
      ),
)

Reads-not-malformed : {str : Bytes} {v : ℕ} → Reads str v → is_malformed str ≡ false
unfolding is_malformed has_wrong_length has_wrong_block_count
Reads-not-malformed {str} r = ground (
  arith,
  valid-Blocks r.blocks,
  count_dots-Blocks r.blocks,
  Digits-valid r.first r.octet_a.digits,
  Digits-valid r.second r.octet_b.digits,
  Digits-valid r.third r.octet_c.digits,
  Digits-valid r.fourth r.octet_d.digits,
)

Reads-parse_address : {str : Bytes} {v : ℕ} → Reads str v → parse_address str ≡ some v
unfolding parse_address
Reads-parse_address {str} {v} r =
    rw (Reads-not-malformed r, split_blocks_lem str _ _ _ _ r.blocks)
      (accumulate-word r.octet_a r.octet_b r.octet_c r.octet_d ∙ ap some (sym r.is_word))

-- What the three tests on the whole text say.
well_formed :
    (str : Bytes)
    → is_malformed str ≡ false
    → (7 ≤ length str) × (has_invalid_char str ≡ false) × (count_dots str ≡ 3)
unfolding is_malformed has_wrong_length has_wrong_block_count
well_formed str h = ground arith

module _ {str s t u w : Bytes} (v : ℕ) (blocks : Blocks str s t u w) where
  octets_valid : has_invalid_char str ≡ false → Digits s × Digits t × Digits u × Digits w
  octets_valid h =
      let e = valid-Blocks blocks in
      (
        valid-Digits s (ground arith) blocks.lacks_a,
        valid-Digits t (ground arith) blocks.lacks_b,
        valid-Digits u (ground arith) blocks.lacks_c,
        valid-Digits w (ground arith) blocks.lacks_d,
      )

  octets-Reads :
      (a b c d : ℕ)
      → IsOctet s a
      → IsOctet t b
      → IsOctet u c
      → IsOctet w d
      → 7 ≤ length str
      → accumulate (s ∷ t ∷ u ∷ w ∷ []) 0 ≡ some v
      → Reads str v
  octets-Reads a b c d oa ob oc od long e = record {
    first = s;
    second = t;
    third = u;
    fourth = w;
    blocks = blocks;
    a = a;
    b = b;
    c = c;
    d = d;
    octet_a = oa;
    octet_b = ob;
    octet_c = oc;
    octet_d = od;
    long = long;
    is_word = cc (accumulate-word oa ob oc od);
  }

  accumulate-Reads :
      7 ≤ length str
      → has_invalid_char str ≡ false
      → accumulate (s ∷ t ∷ u ∷ w ∷ []) 0 ≡ some v
      → Reads str v
  accumulate-Reads long valid e =
      let (a, pa, n1, e1) = accumulate-some s _ 0 v e in
      let (b, pb, n2, e2) = accumulate-some t _ n1 v e1 in
      let (c, pc, n3, e3) = accumulate-some u _ n2 v e2 in
      let (d, pd, n4, e4) = accumulate-some w _ n3 v e3 in
      let (ds, dt, du, dw) = octets_valid valid in
      octets-Reads a b c d (parse_block-IsOctet s a ds pa) (parse_block-IsOctet t b dt pb)
        (parse_block-IsOctet u c du pc) (parse_block-IsOctet w d dw pd) long e

parse_address-Reads : (str : Bytes) (v : ℕ) → parse_address str ≡ some v → Reads str v
parse_address-Reads str v e = elim (Bool-cases (is_malformed str)) [
  | inl bad ↦ absurd (unfold parse_address in (ground arith))
  | inr good ↦
      let (long, valid, dots) = well_formed str good in
      let (s, t, u, w, blocks) = Blocks-exist str dots in
      accumulate-Reads v blocks long valid
        (unfold parse_address in (rw (good, split_blocks_lem str s t u w blocks) at e))
]

-- `parse_address` returns a word for exactly the texts of four blocks of up to three digits, each
-- worth at most 255, joined by dots, of seven bytes or more; the word has the first block highest.
pub parse_address_iff : (str : Bytes) (v : ℕ) → (parse_address str ≡ some v) ↔ Reads str v
parse_address_iff str v = (parse_address-Reads str v, λ r. Reads-parse_address r)

-- The dotted notation that `inet_ntop` writes.
unfoldable pub dotted : ℕ → ℕ → ℕ → ℕ → Bytes
dotted a b c d = to_string a ++ dot ∷ (to_string b ++ dot ∷ (to_string c ++ dot ∷ to_string d))

IsOctet-to_string : (n : ℕ) → n ≤ 255 → IsOctet (to_string n) n
IsOctet-to_string n h = record {
  digits = to_string-Digits n;
  short = length-to_string 2 n (omega arith);
  spells = spelled-to_string n;
  small = h;
}

dotted-Blocks :
    (a b c d : ℕ) → Blocks (dotted a b c d) (to_string a) (to_string b) (to_string c) (to_string d)
unfolding dotted
dotted-Blocks a b c d = record {
  joined = refl;
  lacks_a = Digits-Lacks dot (to_string a) refl (to_string-Digits a);
  lacks_b = Digits-Lacks dot (to_string b) refl (to_string-Digits b);
  lacks_c = Digits-Lacks dot (to_string c) refl (to_string-Digits c);
  lacks_d = Digits-Lacks dot (to_string d) refl (to_string-Digits d);
}

-- Reading the dotted notation of any four bytes gives the word they make.
pub parse_address-dotted :
    (a b c d : ℕ)
    → a ≤ 255
    → b ≤ 255
    → c ≤ 255
    → d ≤ 255
    → parse_address (dotted a b c d) ≡ some (word a b c d)
parse_address-dotted a b c d ha hb hc hd = Reads-parse_address (record {
  first = to_string a;
  second = to_string b;
  third = to_string c;
  fourth = to_string d;
  blocks = dotted-Blocks a b c d;
  a = a;
  b = b;
  c = c;
  d = d;
  octet_a = IsOctet-to_string a ha;
  octet_b = IsOctet-to_string b hb;
  octet_c = IsOctet-to_string c hc;
  octet_d = IsOctet-to_string d hd;
  long = omega (
    arith,
    valid-Blocks (dotted-Blocks a b c d),
    to_string-ne-nil a,
    to_string-ne-nil b,
    to_string-ne-nil c,
    to_string-ne-nil d,
  );
  is_word = refl;
})
