-- ===== src/LogServer/Shutdown.antt =====
-- Assignment3/server/LogServer.cpp: main on what a user types, up to the selection that shuts it down.
use unx511_unix_systems_prog.Prelude.{
  ℕ, zero, suc, ◌<◌, ◌^◌, Bool, true, false, ◌&&◌, some, List, [], ◌∷◌, ◌++◌, length, length-append,
  All, ◌≡◌, ◌≢◌, refl, ap, ◌∙◌, arith, not, if◌then◌else◌,
}
use unx511_unix_systems_prog.Prelude.Int.{pos}
use unx511_unix_systems_prog.Prelude.Bytes.{show_nat}
use unx511_unix_systems_prog.Prelude.Setup.{Act, closed, ok}
use unx511_unix_systems_prog.Prelude.Typed.{scan_stream_line}
use unx511_unix_systems_prog.LogServer.{
  Server, Effect, initial, flush_line, drop_char, set_level, send_level, dumped, select, menu_loop,
}
use unx511_unix_systems_prog.LogServer.Startup.{
  Answers, start, Ending, stopped, joining, finish, serve, run_started, served, main,
}

-- What a user may type that does not shut the server down: an empty line; a line that selects
-- nothing; 1 and a level on the next line; 2 and a key.
pub data Typed : Type 0 where
  blank : Typed
  other : ℕ → List ℕ → Typed
  level : List ℕ → ℕ → Typed
  dump : List ℕ → ℕ → Typed

abbrev NoNewline : List ℕ → Type 0
NoNewline = All (λ c. c ≢ 10)

abbrev pub IsTyped : Typed → Type 0
IsTyped blank = Unit
IsTyped (other c tail) = (c ≢ 10) × (c ≢ 48) × (c ≢ 49) × (c ≢ 50) × NoNewline tail
IsTyped (level tail n) = NoNewline tail × (n < 2 ^ 31)
IsTyped (dump tail key) = NoNewline tail

-- The characters of it, and what follows.
abbrev pub typed : Typed → List ℕ → List ℕ
typed blank s = 10 ∷ s
typed (other c tail) s = c ∷ tail ++ (10 ∷ s)
typed (level tail n) s = 49 ∷ tail ++ (10 ∷ show_nat n ++ (10 ∷ s))
typed (dump tail key) s = 50 ∷ tail ++ (10 ∷ key ∷ s)

abbrev pub all_typed : List Typed → List ℕ → List ℕ
all_typed [] s = s
all_typed (t ∷ ts) s = typed t (all_typed ts s)

flush_line-line : (tail s : List ℕ) → NoNewline tail → flush_line (tail ++ (10 ∷ s)) ≡ s
unfolding flush_line
flush_line-line [] s h = refl
flush_line-line (c ∷ tail) s h = ground (arith, h.0, flush_line-line tail s h.1)

-- On input s a running menu leaves g_is_running as `b`.
Leaves : Bool → List ℕ → Type 0
Leaves b s =
    (f : ℕ) (g : Server)
    → g.is_running ≡ true
    → length s < f
    → (r : Server × List Effect) × (menu_loop f s g ≡ some r) × (r.0.is_running ≡ b)

end-Leaves : Leaves true []
unfolding Leaves menu_loop
end-Leaves zero g h l = absurd (omega arith)
end-Leaves (suc f) g h l = ((g, []), refl, h)

select_goes_on :
    (b : Bool) (ch : ℕ) (s rest : List ℕ)
    → ch ≢ 10
    → ((g : Server) → (es : List Effect) × (select ch s g ≡ (g, rest, es)))
    → length rest < length (ch ∷ s)
    → Leaves b rest
    → Leaves b (ch ∷ s)
unfolding Leaves menu_loop
select_goes_on b ch s rest c h shorter next zero g v l = absurd (omega arith)
select_goes_on b ch s rest c h shorter next (suc f) g v l =
    let (es, e) = h g in
    let ((g', fs), run, end) = next f g v (omega arith) in
    ((g', es ++ fs), ground (arith, e, run, v, c), end)

blank_step :
    (f : ℕ) (s : List ℕ) (g : Server)
    → g.is_running ≡ true
    → menu_loop (suc f) (10 ∷ s) g ≡ menu_loop f s g
unfolding menu_loop
blank_step f s g v = ap (λ b. if not b then some (g, []) else menu_loop f s g) v

blank_goes_on : (b : Bool) (s : List ℕ) → Leaves b s → Leaves b (10 ∷ s)
unfolding Leaves
blank_goes_on b s next zero g v l = absurd (omega arith)
blank_goes_on b s next (suc f) g v l =
    let (r, run, end) = next f g v (omega arith) in (r, blank_step f s g v ∙ run, end)

zero_shuts_down : (tail s : List ℕ) → NoNewline tail → Leaves false (48 ∷ tail ++ (10 ∷ s))
unfolding Leaves menu_loop select
zero_shuts_down tail s h zero g v l = absurd (omega arith)
zero_shuts_down tail s h (suc zero) g v l = absurd (omega (arith, length-append tail (10 ∷ s)))
zero_shuts_down tail [] h (suc (suc f)) g v l =
    ((record g { is_running = false }, []), rw (v, flush_line-line tail [] h) refl, refl)
zero_shuts_down tail (c ∷ s) h (suc (suc f)) g v l =
    ((record g { is_running = false }, []), rw (v, flush_line-line tail (c ∷ s) h) refl, refl)

typed_goes_on : (b : Bool) (t : Typed) (s : List ℕ) → IsTyped t → Leaves b s → Leaves b (typed t s)
unfolding select set_level drop_char flush_line
typed_goes_on b blank s h next = blank_goes_on b s next
typed_goes_on b (other c tail) s (h, h0, h1, h2, line) next =
    select_goes_on b c (tail ++ (10 ∷ s)) s h
      (λ g. ([], ground (arith, flush_line-line tail s line)))
      (omega (arith, length-append tail (10 ∷ s))) next
typed_goes_on b (level tail n) s (line, small) next =
    select_goes_on b 49 (tail ++ (10 ∷ show_nat n ++ (10 ∷ s))) s (λ e. omega (arith, e))
      (λ g. (
        send_level (pos n) g,
        rw (flush_line-line tail (show_nat n ++ (10 ∷ s)) line, (scan_stream_line n s).0) refl,
      ))
      (omega (
        arith,
        length-append tail (10 ∷ show_nat n ++ (10 ∷ s)),
        length-append (show_nat n) (10 ∷ s),
      ))
      next
typed_goes_on b (dump tail key) s line next =
    select_goes_on b 50 (tail ++ (10 ∷ key ∷ s)) s (λ e. omega (arith, e))
      (λ g. (dumped g.log_file ∷ [], rw (flush_line-line tail (key ∷ s) line) refl))
      (omega (arith, length-append tail (10 ∷ key ∷ s))) next

all_typed_goes_on :
    (b : Bool) (ts : List Typed) (s : List ℕ)
    → All IsTyped ts
    → Leaves b s
    → Leaves b (all_typed ts s)
all_typed_goes_on b [] s h next = next
all_typed_goes_on b (t ∷ ts) s h next =
    typed_goes_on b t (all_typed ts s) h.0 (all_typed_goes_on b ts s h.1 next)

-- What main does behind the menu, and how it ends, by whether it has to wait.
abbrev closes_unless : Bool → ℕ → List Act
closes_unless waits fd = if waits then [] else closed fd ∷ []

abbrev ends_unless : Bool → Ending
ends_unless waits = if waits then joining else stopped

finishes :
    (o b : Bool) (fd : ℕ) (g : Server)
    → g.is_running ≡ b
    → finish o fd g ≡ (closes_unless (o && b) fd, ends_unless (o && b))
finishes true true fd g e = rw e refl
finishes true false fd g e = rw e refl
finishes false b fd g e = refl

main_after :
    (b : Bool) (f fd : ℕ) (a : Answers) (s : List ℕ)
    → Leaves b s
    → (start a).1 ≡ ok fd
    → length s < f
    → (shown : List Effect) × ((main f a s).1
        ≡ served (some (closes_unless (a.open_ok && b) fd, shown, ends_unless (a.open_ok && b))))
unfolding Leaves main initial
main_after b f fd a s leaves fine l =
    let ((g, shown), run, end) = leaves f initial refl l in
    (
      shown,
      ap (run_started a.open_ok f s) fine
          ∙ ap (λ m. served (serve a.open_ok fd m)) run
          ∙ ap (λ r. served (some (r.0, shown, r.1))) (finishes a.open_ok b fd g end),
    )

and_true : (o : Bool) → (o && true) ≡ o
and_true true = refl
and_true false = refl

and_false : (o : Bool) → (o && false) ≡ false
and_false true = refl
and_false false = refl

-- main whose start succeeds, with no ctrl-C, and a user who types empty lines, lines that select
-- nothing, levels and displays: a line that begins with 0 after them ends the program, whatever comes
-- behind it, and the socket is closed. If the input ends without such a line, the program waits for
-- its receiver thread for ever; only if that thread could not open its log file does it end and
-- close the socket.
pub main_shuts_down :
    (f fd : ℕ) (a : Answers) (ts : List Typed) (tail s : List ℕ)
    → (start a).1 ≡ ok fd
    → All IsTyped ts
    → NoNewline tail
    → length (all_typed ts (48 ∷ tail ++ (10 ∷ s))) < f
    → length (all_typed ts []) < f
    → ((shown : List Effect) × ((main f a (all_typed ts (48 ∷ tail ++ (10 ∷ s)))).1
          ≡ served (some (closed fd ∷ [], shown, stopped))))
      × ((shown : List Effect) × ((main f a (all_typed ts [])).1
            ≡ served (
                some (
                  if a.open_ok then [] else closed fd ∷ [],
                  shown,
                  if a.open_ok then joining else stopped,
                ))))
main_shuts_down f fd a ts tail s fine h line l l' =
    let (shown, run) =
      main_after false f fd a _ (all_typed_goes_on false ts _ h (zero_shuts_down tail s line)) fine
        l in
    let (shown', run') =
      main_after true f fd a _ (all_typed_goes_on true ts [] h end-Leaves) fine l' in
    (
      (
        shown,
        run
            ∙ ap (λ w. served (some (closes_unless w fd, shown, ends_unless w)))
                (and_false a.open_ok),
      ),
      (
        shown',
        run'
            ∙ ap (λ w. served (some (closes_unless w fd, shown', ends_unless w)))
                (and_true a.open_ok),
      ),
    )
