-- ===== src/Ckb/Lifecycle/Replays.antt =====
-- Receipts for attachments move no message.
use cemp_mobile.Prelude.{
  ℕ, ◌≡◌, refl, sym, ap, ap₂, subst, ◌∙◌, Bool, true, false, List, [], ◌∷◌, ◌++◌, Option, none,
  some, Result, ok, if◌then◌else◌, ◌==◌, Bool-cases, inl, inr, ◌⊎◌, All,
}
use cemp_mobile.Prelude.Actions.{pure, ◌>>=◌, and_then}
use cemp_mobile.Database.Table.{update_where}
use cemp_mobile.Database.Messages.{Message}
use cemp_mobile.Database.Messages.ChainRefs.{get_by_envelope_message_id}
use cemp_mobile.Ckb.Lifecycle.{
  World, Attachment, LifecycleError, LifecycleAction, Setting, mark_attachment_remote_downloaded,
}
use cemp_mobile.Ckb.Lifecycle.Acknowledgements.{
  Receipt, mark_found, acknowledge, process_receipt, process_acknowledgements,
}

abbrev mark_downloaded : Attachment → Attachment
mark_downloaded a = record a { remote_downloaded = true }

-- The world with other marks on its attachments.
abbrev with_attachments : List Attachment → World → World
with_attachments attachments w = record w { attachments = attachments }

-- The second list is the first one with some attachments marked as downloaded.
abbrev pub IsMarking : List Attachment → List Attachment → Type 0
IsMarking [] [] = Unit {0}
IsMarking (a ∷ before) (b ∷ marked) =
    ((b ≡ a) ⊎ (b ≡ record a { remote_downloaded = true })) × IsMarking before marked
IsMarking _ _ = ⊥

IsMarking-refl : (rows : List Attachment) → IsMarking rows rows
IsMarking-refl [] = tt
IsMarking-refl (a ∷ rows) = (inl refl, IsMarking-refl rows)

IsMarking-trans : (xs ys zs : List Attachment) → IsMarking xs ys → IsMarking ys zs → IsMarking xs zs
IsMarking-trans [] [] [] p q = tt
IsMarking-trans (x ∷ xs) (y ∷ ys) (z ∷ zs) (inl e, p) (inl f, q) =
    (inl (f ∙ e), IsMarking-trans xs ys zs p q)
IsMarking-trans (x ∷ xs) (y ∷ ys) (z ∷ zs) (inl e, p) (inr f, q) =
    (inr (f ∙ ap mark_downloaded e), IsMarking-trans xs ys zs p q)
IsMarking-trans (x ∷ xs) (y ∷ ys) (z ∷ zs) (inr e, p) (inl f, q) =
    (inr (f ∙ e), IsMarking-trans xs ys zs p q)
IsMarking-trans (x ∷ xs) (y ∷ ys) (z ∷ zs) (inr e, p) (inr f, q) =
    (inr (f ∙ ap mark_downloaded e), IsMarking-trans xs ys zs p q)
IsMarking-trans [] [] (z ∷ zs) p q = q
IsMarking-trans [] (y ∷ ys) zs p q = absurd p
IsMarking-trans (x ∷ xs) [] zs p q = absurd p
IsMarking-trans (x ∷ xs) (y ∷ ys) [] p q = q

IsMarking-update_where :
    (p : Attachment → Bool) (rows : List Attachment)
    → IsMarking rows (update_where p (λ a. record a { remote_downloaded = true }) rows)
unfolding update_where
IsMarking-update_where p [] = tt
IsMarking-update_where p (a ∷ rows) = elim (Bool-cases (p a)) [
  | inl e ↦ rw e (inr refl, IsMarking-update_where p rows)
  | inr e ↦ rw e (inl refl, IsMarking-update_where p rows)
]

-- The call returned no id, and nothing changed but that attachments may have been marked.
abbrev pub OnlyDownloads : World → Result LifecycleError (List ℕ) × World → Type 0
OnlyDownloads w r =
    (r.0 ≡ ok [])
    × (attachments : List Attachment) × (r.1 ≡ with_attachments attachments w)
    × IsMarking w.attachments attachments

receipt-OnlyDownloads :
    (setting : Setting) (receipt : Receipt) (w : World)
    → (receipt.status == 1) ≡ false
    → OnlyDownloads w (process_receipt setting receipt w)
unfolding process_receipt
receipt-OnlyDownloads setting receipt w other =
    split (receipt.status == 5) (receipt.status == 1) other
      (get_by_envelope_message_id receipt.message_id_hex w.messages)
  where
    split :
        (five one : Bool)
        → one ≡ false
        → (found : Option Message)
        → OnlyDownloads w (
            if five
            then (ok [], mark_found found w)
            else if one
            then acknowledge setting found w
            else (ok [], w))
    split true one e none = (refl, w.attachments, refl, IsMarking-refl w.attachments)
    split true one e (some m) = (
      refl,
      (mark_attachment_remote_downloaded m.id w).attachments,
      (unfold mark_attachment_remote_downloaded in refl),
      (unfold mark_attachment_remote_downloaded in
          IsMarking-update_where (λ a. a.message_id == m.id) w.attachments),
    )
    split false true e found = absurd (cc e)
    split false false e found = (refl, w.attachments, refl, IsMarking-refl w.attachments)

-- Receipts that do not say "downloaded" (0x01) move nothing: whether they say that an attachment was
-- downloaded (0x05) or have an unknown status, and whatever messages they name, the call
-- acknowledges no row and leaves the messages, their cells, the journal, the balances and the watches as
-- they are; no attachment is added, removed or changed but for being marked as downloaded.
pub process_acknowledgements-OnlyDownloads :
    (setting : Setting) (receipts : List Receipt) (w : World)
    → All (λ receipt. (receipt.status == 1) ≡ false) receipts
    → OnlyDownloads w (process_acknowledgements setting receipts w)
unfolding process_acknowledgements
process_acknowledgements-OnlyDownloads setting [] w h =
    (refl, w.attachments, refl, IsMarking-refl w.attachments)
process_acknowledgements-OnlyDownloads setting (receipt ∷ receipts) w h =
    let (returned, marks, first, marked) = receipt-OnlyDownloads setting receipt w h.0 in
    let (rest_returned, rest_marks, rest, rest_marked) =
      process_acknowledgements-OnlyDownloads setting receipts (with_attachments marks w) h.1 in
    subst (λ r. OnlyDownloads w (and_then tail r)) (sym (pair returned first))
      (subst (λ r. OnlyDownloads w (and_then end r)) (sym (pair rest_returned rest))
        (refl, rest_marks, refl, IsMarking-trans w.attachments marks rest_marks marked rest_marked))
  where
    end : List ℕ → LifecycleAction (List ℕ)
    end rest = pure ([] ++ rest)

    tail : List ℕ → LifecycleAction (List ℕ)
    tail acked = process_acknowledgements setting receipts >>= λ rest. pure (acked ++ rest)

    pair :
        {r : Result LifecycleError (List ℕ) × World} {a : Result LifecycleError (List ℕ)}
        {v : World}
        → r.0 ≡ a
        → r.1 ≡ v
        → r ≡ (a, v)
    pair x y = ap₂ (λ a v. (a, v)) x y
