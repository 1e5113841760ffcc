-- ===== src/Ckb/Discovery/Pages.antt =====
-- The cells of a page that a recipient is given.
use cemp_mobile.Prelude.{
  ◌≤◌, ◌≡◌, refl, ap, Bool, true, false, ◌&&◌, List, [], ◌∷◌, ◌++◌, Option, none, some, Result, ok,
  String, ◌==◌, leb, length, arith, Bool-cases, inl, inr, ◌↔◌, Option-cases, ◌⊎◌, leb→le,
  length-append, ==→eq, ==_refl, All,
}
use cemp_mobile.Core.Codec.{Bytes}
use cemp_mobile.Ckb.Discovery.{
  Script, Cell, CellPage, MessageCellQuery, CellQuery, build_route_tag_prefix, starts_with, read,
  is_message, filter_cells, message_query, filter_page, find_message_cells, version, total_bytes,
  max_envelope_bytes,
}

-- The second list is the first one without the elements that fail `P`, in the same order.
pub data Selection {A : Type 0} (P : A → Type 0) : List A → List A → Type 0 where
  nothing : Selection P [] []
  kept : {a : A} {xs ys : List A} → P a → Selection P xs ys → Selection P (a ∷ xs) (a ∷ ys)
  dropped : {a : A} {xs ys : List A} → ¬ P a → Selection P xs ys → Selection P (a ∷ xs) ys

starts_with_sound :
    (prefix args : Bytes)
    → starts_with prefix args ≡ true
    → (rest : Bytes) × (args ≡ prefix ++ rest)
unfolding starts_with
starts_with_sound [] args h = (args, refl)
starts_with_sound (x ∷ prefix) [] h = absurd (cc h)
starts_with_sound (x ∷ prefix) (y ∷ args) h = elim (Bool-cases (y == x)) [
  | inl e ↦
      (let t = starts_with_sound prefix args (ground (arith, e, h)) in (t.0, cc (==→eq y x e, t.1)))
  | inr e ↦ absurd (ground (arith, e, h))
]

starts_with-append : (prefix rest : Bytes) → starts_with prefix (prefix ++ rest) ≡ true
unfolding starts_with
starts_with-append [] rest = refl
starts_with-append (x ∷ prefix) rest = rw (==_refl x, starts_with-append prefix rest)

module _ (bytes_from : String → Option Bytes) where
  -- The cell's type arguments are the version, the tag and 48 bytes more, and its data is no longer
  -- than an envelope.
  abbrev pub IsMessageOf : Bytes → Cell → Type 0
  IsMessageOf tag cell =
      (script : Script) × (rest : Bytes) × (bytes : Bytes) × (cell.output.type_script ≡ some script)
      × (bytes_from script.args ≡ some (1 ∷ tag ++ rest))
      × (length rest ≡ 48)
      × (bytes_from cell.data_hex ≡ some bytes)
      × (length bytes ≤ 82000)

  -- The cell's hex strings decode.
  abbrev pub IsReadable : Cell → Type 0
  IsReadable cell =
      ((script : Script)
        → cell.output.type_script ≡ some script
        → (args : Bytes) × (bytes_from script.args ≡ some args))
      × (bytes : Bytes) × (bytes_from cell.data_hex ≡ some bytes)

  -- The test on a cell whose strings are decoded.
  abbrev accepts : Bytes → Bytes → Bytes → Bool
  accepts prefix args bytes =
      (length args == total_bytes)
      && starts_with prefix args
      && leb (length bytes) max_envelope_bytes

  is_message-accepts :
      (prefix : Bytes) (cell : Cell) (script : Script) (args bytes : Bytes)
      → bytes_from script.args ≡ some args
      → bytes_from cell.data_hex ≡ some bytes
      → is_message bytes_from prefix cell (some script) ≡ ok (accepts prefix args bytes)
  unfolding is_message read
  is_message-accepts prefix cell script args bytes a d =
      elim (Bool-cases (length args == total_bytes)) [
        | inl e ↦ (elim (Bool-cases (starts_with prefix args)) [
          | inl f ↦ rw (a, e, f, d)
          | inr f ↦ rw (a, e, f)
        ])
        | inr e ↦ rw (a, e)
      ]

  accepts-IsMessageOf :
      (tag : Bytes) (cell : Cell) (script : Script) (args bytes : Bytes)
      → length tag ≡ 32
      → cell.output.type_script ≡ some script
      → bytes_from script.args ≡ some args
      → bytes_from cell.data_hex ≡ some bytes
      → accepts (version ∷ tag) args bytes ≡ true ↔ IsMessageOf tag cell
  accepts-IsMessageOf tag cell script args bytes n t a d = (forth, back)
    where
      forth : accepts (version ∷ tag) args bytes ≡ true → IsMessageOf tag cell
      forth h =
          let (rest, e) = starts_with_sound (version ∷ tag) args (ground (arith, h)) in
          (
            script,
            rest,
            bytes,
            t,
            cc (a, e),
            tail_length rest e (ground (arith, h)),
            d,
            leb→le (length bytes) max_envelope_bytes (ground (arith, h)),
          )
        where
          tail_length :
              (rest : Bytes)
              → args ≡ version ∷ tag ++ rest
              → (length args == total_bytes) ≡ true
              → length rest ≡ 48
          tail_length rest e l =
              omega (arith, n, ==→eq (length args) 81 l, ap length e, length-append tag rest)

      back : IsMessageOf tag cell → accepts (version ∷ tag) args bytes ≡ true
      back (other, rest, bytes2, t2, a2, l, d2, small) = joined (cc (a, a2, t, t2)) (cc (d, d2))
        where
          joined :
              args ≡ version ∷ tag ++ rest
              → bytes ≡ bytes2
              → accepts (version ∷ tag) args bytes ≡ true
          joined e f = rw (long, begins, fits)
            where
              long : (length args == total_bytes) ≡ true
              long = ground (arith, n, l, ap length e, length-append tag rest)

              begins : starts_with (version ∷ tag) args ≡ true
              begins = rw (e, starts_with-append (version ∷ tag) rest)

              fits : leb (length bytes) max_envelope_bytes ≡ true
              fits = ground (arith, small, ap length f)

  -- The verdict on a cell that decodes.
  is_message-cases :
      (tag : Bytes) (cell : Cell)
      → length tag ≡ 32
      → IsReadable cell
      → ((is_message bytes_from (version ∷ tag) cell cell.output.type_script ≡ ok true)
          × IsMessageOf tag cell)
        ⊎ ((is_message bytes_from (version ∷ tag) cell cell.output.type_script ≡ ok false)
            × (¬ IsMessageOf tag cell))
  unfolding is_message
  is_message-cases tag cell n (args_of, bytes, d) = elim (Option-cases cell.output.type_script) [
    | inl t ↦ inr (untyped t, λ (other, rest, bytes2, t2, a2, l, d2, small). cc (t, t2))
    | inr (script, t) ↦ typed script t (args_of script t)
  ]
    where
      untyped :
          cell.output.type_script ≡ none
          → is_message bytes_from (version ∷ tag) cell cell.output.type_script ≡ ok false
      untyped t = rw t

      typed :
          (script : Script)
          → cell.output.type_script ≡ some script
          → (args : Bytes) × (bytes_from script.args ≡ some args)
          → ((is_message bytes_from (version ∷ tag) cell cell.output.type_script ≡ ok true)
              × IsMessageOf tag cell)
            ⊎ ((is_message bytes_from (version ∷ tag) cell cell.output.type_script ≡ ok false)
                × (¬ IsMessageOf tag cell))
      typed script t (args, a) =
          let same = is_message-accepts (version ∷ tag) cell script args bytes a d in
          let iff = accepts-IsMessageOf tag cell script args bytes n t a d in
          elim (Bool-cases (accepts (version ∷ tag) args bytes)) [
            | inl e ↦ inl (cc (same, t, e), iff.0 e)
            | inr e ↦ inr (cc (same, t, e), λ p. cc (e, iff.1 p))
          ]

  filter_cells-Selection :
      (tag : Bytes) (cells : List Cell)
      → length tag ≡ 32
      → All IsReadable cells
      → (found : List Cell) × (filter_cells bytes_from (version ∷ tag) cells ≡ ok found)
        × Selection (IsMessageOf tag) cells found
  unfolding filter_cells
  filter_cells-Selection tag [] n r = ([], refl, nothing)
  filter_cells-Selection tag (cell ∷ cells) n (r, rs) =
      let (found, e, selection) = filter_cells-Selection tag cells n rs in
      elim (is_message-cases tag cell n r) [
        | inl (v, p) ↦ (cell ∷ found, rw (v, e), kept p selection)
        | inr (v, p) ↦ (found, rw (v, e), dropped p selection)
      ]

  -- For a route tag of 32 bytes, an indexer that answers a page and cells whose hex strings decode,
  -- the search returns. It returns the answer's cursor and, in the answer's order, exactly the cells
  -- whose type arguments are the version 1, the tag and 48 bytes more and whose data has at most
  -- 82,000 bytes, whatever else the indexer put on the page.
  pub find_message_cells-Selection :
      (hex_from : Bytes → String) (find_cells : CellQuery → Result String CellPage)
      (script : MessageCellQuery) (tag : Bytes) (cursor : Option String) (page : CellPage)
      → length tag ≡ 32
      → find_cells (message_query hex_from script (1 ∷ tag) cursor) ≡ ok page
      → All IsReadable page.cells
      → (found : CellPage) × (find_message_cells bytes_from hex_from find_cells script tag cursor
          ≡ ok found)
        × (found.last_cursor ≡ page.last_cursor)
        × Selection (IsMessageOf tag) page.cells found.cells
  unfolding find_message_cells build_route_tag_prefix filter_page
  find_message_cells-Selection hex_from find_cells script tag cursor page n answered readable =
      let (found, e, selection) = filter_cells-Selection tag page.cells n readable in
      (
        record { cells = found; last_cursor = page.last_cursor },
        rw (ok_tag, answered, e),
        refl,
        selection,
      )
    where
      ok_tag : (length tag == 32) ≡ true
      ok_tag = ground (arith, n)
