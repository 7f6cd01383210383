-- ===== src/Home/Serving.antt =====
-- What the rows of the carriers are (web/src/lib/home.ts).
use zte_u60_pro_mu5250_manag.Common.{
  ◌≤◌, ◌≡◌, refl, ap, sym, ◌∙◌, false, not, Option, none, some, List, [], ◌∷◌, ◌++◌, map, filter,
  length, Bool-cases, inl, inr, All, arith,
}
use zte_u60_pro_mu5250_manag.Common.Texts.{Text, split, trim}
use zte_u60_pro_mu5250_manag.Home.Signal.{Numbers, NetworkSignal, or_none}
use zte_u60_pro_mu5250_manag.Home.Carriers.{
  Kind, Carrier, is_cell, put_carrier, put_all, carriers, parse_ca, carriers_in, carrier_of,
  carriers_of, all_some, serving_rows,
}

module _ {ℓ} {N : Type ℓ} where
  abbrev pub IsRecord : Carrier N → Type 0
  IsRecord c = c.serving ≡ false

  append_nil : (xs : List (Carrier N)) → xs ++ [] ≡ xs
  append_nil [] = refl
  append_nil (x ∷ xs) = ap (λ l. x ∷ l) (append_nil xs)

  append_assoc : (xs ys zs : List (Carrier N)) → (xs ++ ys) ++ zs ≡ xs ++ (ys ++ zs)
  append_assoc [] ys zs = refl
  append_assoc (x ∷ xs) ys zs = ap (λ l. x ∷ l) (append_assoc xs ys zs)

  All-append :
      (xs ys : List (Carrier N)) → All IsRecord xs → All IsRecord ys → All IsRecord (xs ++ ys)
  All-append [] ys hx hy = hy
  All-append (x ∷ xs) ys (h, hx) hy = (h, All-append xs ys hx hy)

  -- The first width among a width and those of rows.
  abbrev pub first_width : Option N → List (Carrier N) → Option N
  first_width b [] = b
  first_width b (c ∷ cs) = first_width (or_none b c.bw) cs

module _ {ℓ} {N : Type ℓ} (numbers : Numbers N) where
  is_cell-record : (c o : Carrier N) → o.serving ≡ false → is_cell numbers c o ≡ false
  unfolding is_cell
  is_cell-record c o h = rw h refl

  put_carrier-records :
      (c : Carrier N) (out : List (Carrier N))
      → All IsRecord out
      → put_carrier numbers c out ≡ out ++ (c ∷ [])
  unfolding put_carrier
  put_carrier-records c [] h = refl
  put_carrier-records c (o ∷ out) (h, hs) =
      rw (is_cell-record c o h) (ap (λ l. o ∷ l) (put_carrier-records c out hs))

  -- Records alone are listed in their order.
  put_all-records :
      (cs out : List (Carrier N))
      → All IsRecord cs
      → All IsRecord out
      → put_all numbers cs out ≡ out ++ cs
  unfolding put_all
  put_all-records [] out hc ho = sym (append_nil out)
  put_all-records (c ∷ cs) out (h, hc) ho =
      ap (put_all numbers cs) (put_carrier-records c out ho)
      ∙ put_all-records cs (out ++ (c ∷ [])) hc (All-append out (c ∷ []) ho (h, tt))
      ∙ append_assoc out (c ∷ []) cs

  -- The row of the serving cell, with the first width that it or a record of its cell has, and then
  -- the records of the other cells.
  unfoldable pub listed_rows : List (Carrier N) → List (Carrier N) → List (Carrier N)
  unfolding is_cell
  listed_rows [] cs = cs
  listed_rows (s ∷ _) cs =
      record s { bw = first_width s.bw (filter (λ c. is_cell numbers c s) cs) }
      ∷ filter (λ c. not (is_cell numbers c s)) cs

  put_all-serving :
      (s : Carrier N) (cs out : List (Carrier N))
      → All IsRecord cs
      → All IsRecord out
      → put_all numbers cs (s ∷ out)
        ≡ record s { bw = first_width s.bw (filter (λ c. is_cell numbers c s) cs) }
          ∷ (out ++ filter (λ c. not (is_cell numbers c s)) cs)
  unfolding put_all put_carrier is_cell
  put_all-serving s [] out hc ho = ap (λ l. s ∷ l) (sym (append_nil out))
  put_all-serving s (c ∷ cs) out (h, hc) ho = elim (Bool-cases (is_cell numbers c s)) [
    | inl e ↦ rw e (put_all-serving (record s { bw = or_none s.bw c.bw }) cs out hc ho)
    | inr e ↦
        let width = first_width s.bw (filter (λ x. is_cell numbers x s) cs) in
        let others = filter (λ x. not (is_cell numbers x s)) cs in
        rw e (
          ap (λ l. put_all numbers cs (s ∷ l)) (put_carrier-records c out ho)
          ∙ put_all-serving s cs (out ++ (c ∷ [])) hc (All-append out (c ∷ []) ho (h, tt))
          ∙ ap (λ l. record s { bw = width } ∷ l) (append_assoc out (c ∷ []) others))
  ]

  -- Records are no serving rows.
  All-carrier_of : (kind : Kind) (fs : List N) → All IsRecord (carrier_of numbers kind fs)
  unfolding carrier_of
  All-carrier_of kind [] = tt
  All-carrier_of kind (a ∷ []) = tt
  All-carrier_of kind (a ∷ b ∷ []) = tt
  All-carrier_of kind (a ∷ b ∷ c ∷ []) = tt
  All-carrier_of kind (a ∷ b ∷ c ∷ d ∷ []) = tt
  All-carrier_of kind (a ∷ b ∷ c ∷ d ∷ e ∷ []) = (refl, tt)
  All-carrier_of kind (a ∷ b ∷ c ∷ d ∷ e ∷ f ∷ []) = tt
  All-carrier_of kind (a ∷ b ∷ c ∷ d ∷ e ∷ f ∷ g ∷ []) = tt
  All-carrier_of kind (a ∷ b ∷ c ∷ d ∷ e ∷ f ∷ g ∷ h ∷ []) = tt
  All-carrier_of kind (a ∷ b ∷ c ∷ d ∷ e ∷ f ∷ g ∷ h ∷ i ∷ []) = tt
  All-carrier_of kind (a ∷ b ∷ c ∷ d ∷ e ∷ f ∷ g ∷ h ∷ i ∷ j ∷ []) = tt
  All-carrier_of kind (a ∷ b ∷ c ∷ d ∷ e ∷ f ∷ g ∷ h ∷ i ∷ j ∷ k ∷ []) = (refl, tt)
  All-carrier_of kind (a ∷ b ∷ c ∷ d ∷ e ∷ f ∷ g ∷ h ∷ i ∷ j ∷ k ∷ l ∷ m) = tt

  All-carriers_of : (kind : Kind) (o : Option (List N)) → All IsRecord (carriers_of numbers kind o)
  All-carriers_of kind none = tt
  All-carriers_of kind (some fs) = All-carrier_of kind fs

  All-carriers_in : (kind : Kind) (recs : List Text) → All IsRecord (carriers_in numbers kind recs)
  unfolding carriers_in
  All-carriers_in kind [] = tt
  All-carriers_in kind (rec ∷ recs) =
      let fields = all_some (map (λ x. numbers.number_of (trim x)) (split 44 rec)) in
      All-append (carriers_of numbers kind fields) (carriers_in numbers kind recs)
        (All-carriers_of kind fields) (All-carriers_in kind recs)

  All-parse_ca : (text : Option Text) (kind : Kind) → All IsRecord (parse_ca numbers text kind)
  unfolding parse_ca
  All-parse_ca none kind = tt
  All-parse_ca (some []) kind = tt
  All-parse_ca (some (c ∷ s)) kind = All-carriers_in kind (split 59 (c ∷ s))

  -- The records of both lists, those of 5G first.
  abbrev pub records : NetworkSignal N → List (Carrier N)
  records sig = parse_ca numbers sig.nrca Kind.nr ++ parse_ca numbers sig.lteca Kind.lte

  rows_of :
      (s : List (Carrier N)) (cs : List (Carrier N))
      → length s ≤ 1
      → All IsRecord cs
      → put_all numbers cs s ≡ listed_rows s cs
  unfolding listed_rows
  rows_of [] cs short h = put_all-records cs [] h tt
  rows_of (s ∷ []) cs short h = put_all-serving s cs [] h tt
  rows_of (s ∷ t ∷ out) cs short h = absurd (omega arith)

  length-serving_rows : (sig : NetworkSignal N) → length (serving_rows numbers sig) ≤ 1
  unfolding serving_rows
  length-serving_rows sig = ground arith

  -- The carriers are the row of the serving cell, if there is one, with the first width that it or a
  -- record of its cell has; then, in their order, the records of the other cells, or all of them.
  pub carriers-listed_rows :
      (sig : NetworkSignal N)
      → carriers numbers (some sig) ≡ listed_rows (serving_rows numbers sig) (records sig)
  unfolding carriers
  carriers-listed_rows sig =
      rows_of (serving_rows numbers sig) (records sig) (length-serving_rows sig) (
        All-append (parse_ca numbers sig.nrca Kind.nr) (parse_ca numbers sig.lteca Kind.lte)
          (All-parse_ca sig.nrca Kind.nr) (All-parse_ca sig.lteca Kind.lte))
