-- ===== src/Rawtx/Witness.antt =====
-- The loops over the witnesses of a transaction in psbt_parse_rawtx.c, over the plain list of unread
-- bytes.
use membrane_app_bitcoin_new.Parser.Outcome.{skipped}
use membrane_app_bitcoin_new.Rawtx.Whole.{
  more_stacks, end_stack, start_stack, stack_size, more_stack_elements, one_stack, end_element,
  start_element, element_len, one_element, stack_elements, skip_bytes, element_bytes,
  more_element_bytes,
}
use membrane_app_bitcoin_new.Common.{
  refl, ◌≤◌, ℕ, ◌+◌, ◌*◌, ◌<◌, ◌≡◌, ◌∙◌, arith, List, Bool, true, false, if◌then◌else◌,
}
use membrane_app_bitcoin_new.Parser.{Progress, incomplete, completed, failed, Progress, ParsingStep}
use membrane_app_bitcoin_new.Parser.Stream.{unread}
use membrane_app_bitcoin_new.Parser.Stepwise.{
  read_then, read_varint_then, run_loop, while_body, in_sequence, update, skip_if,
}
use membrane_app_bitcoin_new.Parser.Resume.{Lowers, Resumes, Consumes}
use membrane_app_bitcoin_new.Parser.Forms.{
  done_of, AtStop, AtDone, stop_of, update-Resumes, update-Consumes, skip_if-Resumes,
  skip_if-Consumes, skip_if-AtDone, in_sequence-Resumes, in_sequence-Consumes, in_sequence-AtStop,
  in_sequence-AtDone,
}
use membrane_app_bitcoin_new.Parser.Reads.{
  read_then-AtStop, read_then-Resumes, read_then-AtDone, read_then-Consumes,
  read_varint_then-Resumes, read_varint_then-Consumes, read_varint_then-AtDone,
  read_varint_then-AtStop,
}
use membrane_app_bitcoin_new.Parser.Loops.{while-Lowers, while-Resumes, while-Consumes}
use membrane_app_bitcoin_new.Parser.Fixed.{
  read_then-Fixes, update-Fixes, in_sequence-Fixes, while-Fixes, read_varint_then-Fixes,
  skip_if-Fixes, Fixes,
}
use membrane_app_bitcoin_new.Rawtx.{minus_u32, data_len, Rawtx}

-- A loop inside a loop: `size_step` reads how much is to come unless `known` says that it has been
-- read, `inner` reads it, and `finish` makes it unknown again.
module _ (known : Rawtx → Bool) (test : Rawtx → Bool) (start : ℕ → Rawtx → Rawtx)
    (inner : ParsingStep Rawtx (List ℕ)) (finish : Rawtx → Rawtx)
    (start_known : (n : ℕ) (s : Rawtx) → known (start n s) ≡ true)
    (start_test : (n : ℕ) (s : Rawtx) → test (start n s) ≡ test s)
    (finish_unknown : (s : Rawtx) → known (finish s) ≡ false) (inner_known : Fixes known inner)
    (inner_test : Fixes test inner) (inner_resumes : Resumes inner)
    (inner_shorter : Consumes (λ s. 0) inner) where
  abbrev size_step : ParsingStep Rawtx (List ℕ)
  size_step = skip_if known (read_varint_then unread start)

  abbrev rest : ParsingStep Rawtx (List ℕ)
  rest = in_sequence inner (update finish)

  size_test : Fixes test size_step
  size_test =
      skip_if-Fixes test known (read_varint_then unread start)
        (read_varint_then-Fixes test start start_test)

  size_step-Resumes : Resumes size_step
  size_step-Resumes =
      skip_if-Resumes known (read_varint_then unread start) (read_varint_then-Resumes start)
        (λ s xs e. read_varint_then-AtStop start (λ s'. known s' ≡ false) s xs e)

  rest-Resumes : Resumes rest
  rest-Resumes =
      in_sequence-Resumes inner (update finish) (λ s. Unit) (λ s. ⊥) inner_resumes
        (update-Resumes finish) (λ s xs. done_of (λ s'. Unit) (inner s xs) tt)
        (λ s xs q. unfold update in tt) (λ s xs p. absurd p)

  knows : (s : Rawtx) (xs : List ℕ) → AtDone (λ s'. known s' ≡ true) (size_step s xs)
  knows s xs =
      skip_if-AtDone known (read_varint_then unread start) (λ s'. known s' ≡ true) s xs (λ k. k)
        (read_varint_then-AtDone start (λ s'. known s' ≡ true) s xs (λ n. start_known n s))

  rest-AtStop_known :
      (s : Rawtx) (xs : List ℕ) → known s ≡ true → AtStop (λ s'. known s' ≡ true) (rest s xs)
  unfolding update
  rest-AtStop_known s xs k =
      in_sequence-AtStop inner (update finish) (λ s'. Unit) (λ s'. known s' ≡ true) s xs
        (stop_of (λ s'. known s' ≡ true) (inner s xs) (inner_known s xs ∙ k))
        (done_of (λ s'. Unit) (inner s xs) tt) (λ s' r q. tt)

  round-Resumes : Resumes (in_sequence size_step rest)
  round-Resumes =
      in_sequence-Resumes size_step rest (λ s. known s ≡ true) (λ s. known s ≡ true)
        size_step-Resumes rest-Resumes (λ s xs. knows s xs) (λ s xs k. rest-AtStop_known s xs k)
        (λ s xs k. skipped known (read_varint_then unread start) s xs k)

  abbrev reads : Rawtx → ℕ
  reads s = if known s then 0 else 1

  abbrev begun : Rawtx → ℕ
  begun s = if known s then 1 else 0

  round-Consumes : Consumes reads (in_sequence size_step rest)
  round-Consumes =
      in_sequence-Consumes size_step rest reads
        (skip_if-Consumes known (read_varint_then unread start) 1 (read_varint_then-Consumes start))
        (in_sequence-Consumes inner (update finish) (λ s. 0) inner_shorter (update-Consumes finish))

  round-unknown :
      (s : Rawtx) (xs : List ℕ) → AtDone (λ s'. known s' ≡ false) (in_sequence size_step rest s xs)
  unfolding update
  round-unknown =
      in_sequence-AtDone size_step rest (λ s'. known s' ≡ false)
        (in_sequence-AtDone inner (update finish) (λ s'. known s' ≡ false)
          (λ s' r. finish_unknown s'))

  round-stays :
      (s : Rawtx) (xs : List ℕ)
      → test s ≡ true
      → AtStop (λ s'. test s' ≡ true) (in_sequence size_step rest s xs)
  unfolding update
  round-stays s xs e =
      in_sequence-AtStop size_step rest (λ s'. test s' ≡ true) (λ s'. test s' ≡ true) s xs
        (stop_of (λ s'. test s' ≡ true) (size_step s xs) (size_test s xs ∙ e))
        (done_of (λ s'. test s' ≡ true) (size_step s xs) (size_test s xs ∙ e))
        (λ s' r e'.
          in_sequence-AtStop inner (update finish) (λ s''. Unit) (λ s''. test s'' ≡ true) s' r
            (stop_of (λ s''. test s'' ≡ true) (inner s' r) (inner_test s' r ∙ e'))
            (done_of (λ s''. Unit) (inner s' r) tt) (λ s'' r' q. tt))

  round-lighter :
      (s : Rawtx) (xs : List ℕ)
      → test s ≡ true
      → AtDone (λ s'. begun s' < 2 * reads s + begun s) (in_sequence size_step rest s xs)
  round-lighter s xs e = lighter (in_sequence size_step rest s xs) (round-unknown s xs)
    where
      lighter :
          (t : Progress × Rawtx × List ℕ)
          → AtDone (λ s'. known s' ≡ false) t
          → AtDone (λ s'. begun s' < 2 * reads s + begun s) t
      lighter (incomplete, s', r) k = tt
      lighter (completed, s', r) k = ground arith
      lighter (failed, s', r) k = tt

  pub nested-Resumes : Resumes (run_loop unread (while_body test (in_sequence size_step rest)))
  nested-Resumes =
      while-Resumes test (in_sequence size_step rest) reads begun (λ s. ground arith) round-Consumes
        round-lighter round-Resumes round-stays

  pub nested-Consumes :
      Consumes (λ s. 0) (run_loop unread (while_body test (in_sequence size_step rest)))
  nested-Consumes = while-Consumes test (in_sequence size_step rest) reads begun round-Consumes

  nested-Lowers : Lowers (while_body test (in_sequence size_step rest))
  nested-Lowers =
      while-Lowers test (in_sequence size_step rest) reads begun (λ s. ground arith) round-Consumes
        round-lighter

element_bytes_fix :
    {A : Type 0} (g : Rawtx → A)
    → ((bytes : List ℕ) (s : Rawtx) → g (skip_bytes bytes s).1 ≡ g s)
    → Fixes g (element_bytes unread)
unfolding element_bytes
element_bytes_fix g h = while-Fixes g more_element_bytes _ (read_then-Fixes g _ skip_bytes h)

element_reads :
    (s : Rawtx)
    → more_element_bytes s ≡ true
    → 1 ≤ data_len s.cur_wit_elem_len s.cur_wit_el_bytes_read
unfolding more_element_bytes data_len minus_u32
element_reads s e = ground arith

bytes_lighter :
    (s : Rawtx) (xs : List ℕ)
    → more_element_bytes s ≡ true
    → AtDone
        (λ s'. 0 < 2 * data_len s.cur_wit_elem_len s.cur_wit_el_bytes_read + 0)
        (read_then unread
          (λ s'. data_len s'.cur_wit_elem_len s'.cur_wit_el_bytes_read)
          skip_bytes
          s
          xs)
bytes_lighter s xs e =
    read_then-AtDone _ skip_bytes _ s xs (λ bytes k. omega (arith, element_reads s e))

pub bytes-Lowers : Lowers (
    while_body more_element_bytes
      (read_then unread (λ s. data_len s.cur_wit_elem_len s.cur_wit_el_bytes_read) skip_bytes))
bytes-Lowers =
    while-Lowers more_element_bytes _ (λ s. data_len s.cur_wit_elem_len s.cur_wit_el_bytes_read)
      (λ s. 0) (λ s. omega arith) (read_then-Consumes _ skip_bytes) bytes_lighter

bytes-Resumes : Resumes (element_bytes unread)
unfolding element_bytes
bytes-Resumes =
    while-Resumes more_element_bytes _ (λ s. data_len s.cur_wit_elem_len s.cur_wit_el_bytes_read)
      (λ s. 0) (λ s. omega arith) (read_then-Consumes _ skip_bytes) bytes_lighter
      (read_then-Resumes _ skip_bytes)
      (λ s xs e. read_then-AtStop _ skip_bytes (λ s'. more_element_bytes s' ≡ true) s xs e)

bytes-Consumes : Consumes (λ s. 0) (element_bytes unread)
unfolding element_bytes
bytes-Consumes = while-Consumes more_element_bytes _ _ (λ s. 0) (read_then-Consumes _ skip_bytes)

abbrev elem_len_read : Rawtx → Bool
elem_len_read s = s.is_cur_wit_elem_len_read

elements-Resumes : Resumes (stack_elements unread)
unfolding stack_elements one_element element_len skip_bytes start_element end_element
    more_stack_elements
elements-Resumes =
    nested-Resumes elem_len_read more_stack_elements start_element (element_bytes unread)
      end_element (λ n s. refl) (λ n s. refl) (λ s. refl)
      (element_bytes_fix elem_len_read (λ b s. refl))
      (element_bytes_fix more_stack_elements (λ b s. refl)) bytes-Resumes bytes-Consumes

pub elements-Lowers : Lowers (while_body more_stack_elements (one_element unread))
unfolding one_element element_len skip_bytes start_element end_element more_stack_elements
elements-Lowers =
    nested-Lowers elem_len_read more_stack_elements start_element (element_bytes unread) end_element
      (λ n s. refl) (λ n s. refl) (λ s. refl) (element_bytes_fix elem_len_read (λ b s. refl))
      (element_bytes_fix more_stack_elements (λ b s. refl)) bytes-Resumes bytes-Consumes

elements-Consumes : Consumes (λ s. 0) (stack_elements unread)
unfolding stack_elements one_element element_len skip_bytes start_element end_element
    more_stack_elements
elements-Consumes =
    nested-Consumes elem_len_read more_stack_elements start_element (element_bytes unread)
      end_element (λ n s. refl) (λ n s. refl) (λ s. refl)
      (element_bytes_fix elem_len_read (λ b s. refl))
      (element_bytes_fix more_stack_elements (λ b s. refl)) bytes-Resumes bytes-Consumes

elements_fix :
    {A : Type 0} (g : Rawtx → A)
    → ((n : ℕ) (s : Rawtx) → g (start_element n s) ≡ g s)
    → ((bytes : List ℕ) (s : Rawtx) → g (skip_bytes bytes s).1 ≡ g s)
    → ((s : Rawtx) → g (end_element s) ≡ g s)
    → Fixes g (stack_elements unread)
unfolding stack_elements one_element element_len
elements_fix g h i k = while-Fixes g more_stack_elements _ (
    in_sequence-Fixes g _ _
      (skip_if-Fixes g elem_len_read _ (read_varint_then-Fixes g start_element h))
      (in_sequence-Fixes g _ _ (element_bytes_fix g i) (update-Fixes g end_element k)))

abbrev stack_elements_read : Rawtx → Bool
stack_elements_read s = s.is_cur_wit_stack_elements_read

pub witnesses-Resumes : Resumes (run_loop unread (while_body more_stacks (one_stack unread)))
unfolding one_stack stack_size skip_bytes start_element end_element start_stack end_stack
    more_stacks
witnesses-Resumes =
    nested-Resumes stack_elements_read more_stacks start_stack (stack_elements unread) end_stack
      (λ n s. refl) (λ n s. refl) (λ s. refl)
      (elements_fix stack_elements_read (λ n s. refl) (λ b s. refl) (λ s. refl))
      (elements_fix more_stacks (λ n s. refl) (λ b s. refl) (λ s. refl)) elements-Resumes
      elements-Consumes

pub stacks-Lowers : Lowers (while_body more_stacks (one_stack unread))
unfolding one_stack stack_size skip_bytes start_element end_element start_stack end_stack
    more_stacks
stacks-Lowers =
    nested-Lowers stack_elements_read more_stacks start_stack (stack_elements unread) end_stack
      (λ n s. refl) (λ n s. refl) (λ s. refl)
      (elements_fix stack_elements_read (λ n s. refl) (λ b s. refl) (λ s. refl))
      (elements_fix more_stacks (λ n s. refl) (λ b s. refl) (λ s. refl)) elements-Resumes
      elements-Consumes

abbrev segwit : Rawtx → Bool
segwit s = s.is_segwit

pub witnesses-segwit :
    Fixes (λ s. s.is_segwit) (run_loop unread (while_body more_stacks (one_stack unread)))
unfolding one_stack stack_size skip_bytes start_element end_element start_stack end_stack
witnesses-segwit = while-Fixes segwit more_stacks _ (
    in_sequence-Fixes segwit _ _
      (skip_if-Fixes segwit stack_elements_read _
        (read_varint_then-Fixes segwit start_stack (λ n s. refl)))
      (in_sequence-Fixes segwit _ _ (elements_fix segwit (λ n s. refl) (λ b s. refl) (λ s. refl))
        (update-Fixes segwit end_stack (λ s. refl))))
