-- ===== src/Vruntime/Agreement.antt =====
-- examfinal/exam3 and the monitor below Bono/ on one file as the system writes it.
use ciic.Common.{
  ℕ, zero, suc, ◌+◌, ◌≤◌, ◌≡◌, refl, true, false, some, List, [], ◌∷◌, ◌++◌, arith, length, All,
  replicate, ◌==◌, append_assoc, ap, ◌∙◌,
}
use ciic.Common.Text.{line_feed, fgets_all}
use ciic.Common.Lines.{NotFeed, fgets_all-line}
use ciic.Vruntime.{
  Doubles, buffer_size, is_start, skip_other, read_lines, number_or_zero, get_number_from_text,
  write_log, on_line, alarm_handler,
}
use ciic.Vruntime.Monitor.{find_line, after_colon, on_colon, on_fourth, read_vruntime}

-- A line of the file: a name, a colon, blanks and a number.
pub record Entry : Type 0 where
  pub first : ℕ
  pub name : List ℕ
  pub blanks : ℕ
  pub start : ℕ
  pub digits : List ℕ

abbrev pub number_of : Entry → List ℕ
number_of e = e.start ∷ e.digits ++ line_feed ∷ []

abbrev pub text_of : Entry → List ℕ
text_of e = e.first ∷ e.name ++ (b':' ∷ (replicate e.blanks b' ' ++ e.start ∷ e.digits))

-- The name has no digit, no minus sign and no colon, and the number begins with a digit or a minus sign.
abbrev pub Plain : ℕ → Type 0
Plain c = (is_start c ≡ false) × ((c == b':') ≡ false)

abbrev pub IsEntry : Entry → Type 0
IsEntry e = Plain e.first × All Plain e.name × (is_start e.start ≡ true)

-- A line that the buffer holds
abbrev pub IsLine : List ℕ → Type 0
IsLine l = All NotFeed l × (length l + 2 ≤ buffer_size)

abbrev pub sched_file : List ℕ → List ℕ → List ℕ → Entry → List ℕ → List ℕ
sched_file l1 l2 l3 e rest =
    l1 ++ line_feed ∷ (l2 ++ line_feed ∷ (l3 ++ line_feed ∷ (text_of e ++ line_feed ∷ rest)))

abbrev line_of : Entry → List ℕ
line_of e = text_of e ++ line_feed ∷ []

fgets_all-sched_file :
    (l1 l2 l3 : List ℕ) (e : Entry) (rest : List ℕ)
    → IsLine l1
    → IsLine l2
    → IsLine l3
    → IsLine (text_of e)
    → fgets_all buffer_size (sched_file l1 l2 l3 e rest)
      ≡ (l1 ++ line_feed ∷ [])
        ∷ (l2 ++ line_feed ∷ [])
        ∷ (l3 ++ line_feed ∷ [])
        ∷ line_of e
        ∷ fgets_all buffer_size rest
fgets_all-sched_file l1 l2 l3 e rest h1 h2 h3 h4 = rw (
  fgets_all-line buffer_size l1
      (l2 ++ line_feed ∷ (l3 ++ line_feed ∷ (text_of e ++ line_feed ∷ rest))) h1.0 h1.1,
  fgets_all-line buffer_size l2 (l3 ++ line_feed ∷ (text_of e ++ line_feed ∷ rest)) h2.0 h2.1,
  fgets_all-line buffer_size l3 (text_of e ++ line_feed ∷ rest) h3.0 h3.1,
  fgets_all-line buffer_size (text_of e) rest h4.0 h4.1,
)

line_of-parts :
    (e : Entry) → line_of e ≡ e.first ∷ e.name ++ (b':' ∷ (replicate e.blanks b' ' ++ number_of e))
line_of-parts e = ground (
  arith,
  append_assoc e.name (b':' ∷ (replicate e.blanks b' ' ++ e.start ∷ e.digits)) (line_feed ∷ []),
  append_assoc (replicate e.blanks b' ') (e.start ∷ e.digits) (line_feed ∷ []),
)

skip_other-blanks :
    (n c : ℕ) (cs : List ℕ) → is_start c ≡ true → skip_other (replicate n b' ' ++ c ∷ cs) ≡ c ∷ cs
unfolding skip_other
skip_other-blanks zero c cs h = ground (arith, h)
skip_other-blanks (suc n) c cs h = skip_other-blanks n c cs h

skip_other-name :
    (name : List ℕ) (n c : ℕ) (cs : List ℕ)
    → All Plain name
    → is_start c ≡ true
    → skip_other (name ++ (b':' ∷ (replicate n b' ' ++ c ∷ cs))) ≡ c ∷ cs
unfolding skip_other
skip_other-name [] n c cs plain h = skip_other-blanks n c cs h
skip_other-name (x ∷ name) n c cs plain h =
    ground (arith, plain, skip_other-name name n c cs plain.1 h)

after_colon-name :
    (name text : List ℕ) → All Plain name → after_colon (name ++ (b':' ∷ text)) ≡ some text
unfolding after_colon
after_colon-name [] text plain = refl
after_colon-name (x ∷ name) text plain = ground (arith, plain, after_colon-name name text plain.1)

module _ (d : Doubles) where
  get_number_from_text-line_of :
      (e : Entry)
      → IsEntry e
      → get_number_from_text d (line_of e) ≡ number_or_zero d (d.scan_double (number_of e))
  unfolding get_number_from_text
  get_number_from_text-line_of e (first, name, starts) =
      ap (get_number_from_text d) (line_of-parts e)
      ∙ ground (
        arith,
        first,
        ap (λ cs. number_or_zero d (d.scan_double cs))
            (skip_other-name e.name e.blanks e.start (e.digits ++ line_feed ∷ []) name starts),
      )

  module _ (skips : (cs : List ℕ) → d.scan_double (b' ' ∷ cs) ≡ d.scan_double cs) where
    scan_double-blanks :
        (n : ℕ) (cs : List ℕ) → d.scan_double (replicate n b' ' ++ cs) ≡ d.scan_double cs
    scan_double-blanks zero cs = refl
    scan_double-blanks (suc n) cs = rw (skips (replicate n b' ' ++ cs)) (scan_double-blanks n cs)

    on_colon-line_of :
        (e : Entry) → IsEntry e → on_colon d (after_colon (line_of e)) ≡ d.scan_double (number_of e)
    unfolding on_colon after_colon
    on_colon-line_of e (first, name, starts) =
        ap (on_colon d) (
          ap after_colon (line_of-parts e)
          ∙ after_colon-name (e.first ∷ e.name) (replicate e.blanks b' ' ++ number_of e)
              (first, name))
        ∙ scan_double-blanks e.blanks (number_of e)

    -- On a file whose first four lines fit into the buffer, the fourth of them a name, a colon, blanks and
    -- a number, the alarm handler exits with 0 and logs what "%lf" reads of the number, and the monitor
    -- shows the same, if "%lf" reads it. It is taken that "%lf" skips blanks.
    pub alarm_handler-read_vruntime :
        (l1 l2 l3 : List ℕ) (e : Entry) (rest : List ℕ)
        → IsEntry e
        → IsLine l1
        → IsLine l2
        → IsLine l3
        → IsLine (text_of e)
        → (alarm_handler d true (some (sched_file l1 l2 l3 e rest))
            ≡ record { code = 0; log = some (number_or_zero d (d.scan_double (number_of e)) ∷ []) })
          × (read_vruntime d (some (sched_file l1 l2 l3 e rest)) ≡ d.scan_double (number_of e))
    unfolding alarm_handler on_line write_log read_lines read_vruntime on_fourth find_line
    alarm_handler-read_vruntime l1 l2 l3 e rest entry h1 h2 h3 h4 =
        let lines = fgets_all-sched_file l1 l2 l3 e rest h1 h2 h3 h4 in
        (
          ap (λ ls. on_line d true (read_lines 4 ls [])) lines
              ∙ ap (write_log d true) (get_number_from_text-line_of e entry),
          ap (λ ls. on_fourth d (find_line 0 ls)) lines ∙ on_colon-line_of e entry,
        )
