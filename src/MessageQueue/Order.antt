-- ===== src/MessageQueue/Order.antt =====
-- The messages of Section2/class_examples/message_queue arrive in order.
use ciic.Common.{
  ℕ, zero, suc, ◌+◌, ◌/◌, ◌%◌, ◌≤◌, ◌≡◌, refl, List, [], ◌∷◌, ◌++◌, map, length, arith, ap, ap₂,
  sym, ◌∙◌, append_assoc, append-nil, map-append, subst, All, length-append,
}
use mathlib.Core.List.{Perm, perm_middle}
use mathlib.Core.List.Perm
use ciic.Common.Decimal.{print_int, digits_from}
use ciic.Common.Text.{shown}
use ciic.Common.Text.Strings.{NotZero, shown-append}
use ciic.MessageQueue.{
  max_messages, text, message, System, Step, send, receive, print, Reach, start, later,
}

digits_from-NotZero :
    (fuel n : ℕ) (out : List ℕ) → All NotZero out → All NotZero (digits_from fuel n out)
unfolding digits_from
digits_from-NotZero zero n out h = (ground arith, h)
digits_from-NotZero (suc fuel) n out h =
    ground (arith, h, digits_from-NotZero fuel (n / 10) ((48 + n % 10) ∷ out))

shown-message : (rest : List ℕ) (i : ℕ) → shown (message rest i) ≡ text i
unfolding print_int
shown-message rest i = shown-append (text i) rest (
  refl,
  (
    refl,
    (
      refl,
      (
        refl,
        (
          refl,
          (
            refl,
            (
              refl,
              (
                refl,
                (
                  refl,
                  (refl, (refl, (refl, (refl, (refl, (refl, digits_from-NotZero 18 i [] tt)))))),
                ),
              ),
            ),
          ),
        ),
      ),
    ),
  ),
)

-- The texts of the first `n` messages
unfoldable pub texts : ℕ → List (List ℕ)
texts zero = []
texts (suc n) = texts n ++ text n ∷ []

record Inv (left_over : List (List ℕ)) (s : System) : Type 0 where
  in_order : map shown (s.taken ++ s.queue) ≡ map shown left_over ++ texts s.i
  all_printed : Perm (s.printed ++ map shown s.held) (map shown s.taken)
  room : length s.queue ≤ max_messages

suc-eq : (n : ℕ) → suc n ≡ n + 1
suc-eq n = omega arith

subst2 :
    (P : List (List ℕ) → List (List ℕ) → Type 0) {xs xs' ys ys' : List (List ℕ)}
    → xs ≡ xs'
    → ys ≡ ys'
    → P xs ys
    → P xs' ys'
subst2 P {xs' = xs'} {ys = ys} p q h = subst (P xs') q (subst (λ xs. P xs ys) p h)

-- A receiver prints its message, which was somewhere among those not printed.
moved :
    (printed before after : List (List ℕ)) (m : List ℕ)
    → Perm
        ((printed ++ shown m ∷ []) ++ map shown (before ++ after))
        (printed ++ map shown (before ++ m ∷ after))
moved printed before after m =
    subst2 Perm (sym (append_assoc printed (shown m ∷ []) (map shown (before ++ after))))
      (ap (λ xs. printed ++ xs) (sym (map-append shown before (m ∷ after))))
      (Perm.append_left printed (
        subst (λ xs. Perm (shown m ∷ xs) (map shown before ++ shown m ∷ map shown after))
          (sym (map-append shown before after))
          (Perm.symm (perm_middle (map shown before) (map shown after)))))

Step-Inv : {left_over : List (List ℕ)} {s t : System} → Step s t → Inv left_over s → Inv left_over t
unfolding texts
Step-Inv {left_over} {s} (send rest more fits) inv = record {
  in_order =
      ap (map shown) (sym (append_assoc s.taken s.queue (message rest s.i ∷ [])))
      ∙ map-append shown (s.taken ++ s.queue) (message rest s.i ∷ [])
      ∙ ap₂ (λ xs x. xs ++ x ∷ []) inv.in_order (shown-message rest s.i)
      ∙ append_assoc (map shown left_over) (texts s.i) (text s.i ∷ [])
      ∙ ap (λ n. map shown left_over ++ texts n) (suc-eq s.i);
  all_printed = inv.all_printed;
  room = omega (arith, fits, length-append s.queue (message rest s.i ∷ []));
}
Step-Inv {left_over} {s} (receive {first} {queue} e) inv = record {
  in_order =
      ap (map shown) (append_assoc s.taken (first ∷ []) queue ∙ ap (λ xs. s.taken ++ xs) (sym e))
      ∙ inv.in_order;
  all_printed =
      subst2 Perm
        (append_assoc s.printed (map shown s.held) (shown first ∷ [])
          ∙ ap (λ xs. s.printed ++ xs) (sym (map-append shown s.held (first ∷ []))))
        (sym (map-append shown s.taken (first ∷ [])))
        (Perm.append_right (shown first ∷ []) inv.all_printed);
  room = ground (arith, e, inv.room);
}
Step-Inv {left_over} {s} (print before m after e) inv = record {
  in_order = inv.in_order;
  all_printed =
      Perm.trans (moved s.printed before after m)
        (subst (λ xs. Perm (s.printed ++ map shown xs) (map shown s.taken)) e inv.all_printed);
  room = inv.room;
}

Reach-Inv :
    {left_over : List (List ℕ)} {s : System}
    → length left_over ≤ max_messages
    → Reach left_over s
    → Inv left_over s
unfolding texts
Reach-Inv fits start = record { in_order = sym (append-nil _); all_printed = Perm.nil; room = fits }
Reach-Inv fits (later reach step) = Step-Inv step (Reach-Inv fits reach)

length-map : (xs : List (List ℕ)) → length (map shown xs) ≡ length xs
length-map [] = refl
length-map (x ∷ xs) = ap suc (length-map xs)

length-texts : (n : ℕ) → length (texts n) ≡ n
unfolding texts
length-texts zero = refl
length-texts (suc n) = omega (arith, length-texts n, length-append (texts n) (text n ∷ []))

-- At most five messages are on the queue when the programs start. Then the receivers take, and will
-- take off the queue, messages of these texts and then of those of the sender, "mensaje numero 0" and so
-- on, in order and each once; what they have printed and have still to print are the texts that they have
-- taken, each once, in an order that is theirs; and the sender is at most five messages ahead of the
-- receivers, those counted that were there before: so it ends only if enough receivers run.
pub messages_in_order :
    {left_over : List (List ℕ)} {s : System}
    → length left_over ≤ max_messages
    → Reach left_over s
    → (map shown (s.taken ++ s.queue) ≡ map shown left_over ++ texts s.i)
      × Perm (s.printed ++ map shown s.held) (map shown s.taken)
      × (length left_over + s.i ≤ length s.taken + max_messages)
messages_in_order {left_over} {s} fits reach =
    let inv = Reach-Inv fits reach in
    (
      inv.in_order,
      inv.all_printed,
      omega (
        arith,
        inv.room,
        ap length inv.in_order,
        length-append s.taken s.queue,
        length-append (map shown left_over) (texts s.i),
        length-map (s.taken ++ s.queue),
        length-map left_over,
        length-texts s.i,
      ),
    )
