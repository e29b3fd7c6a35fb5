-- ===== src/Rawtx/Inner.antt =====
-- The parsers for an input and for an output of psbt_parse_rawtx.c, over the plain list of unread
-- bytes.
use membrane_app_bitcoin_new.Parser.Stepwise.{read_then, until_body}
use membrane_app_bitcoin_new.Common.{
  length, ◌^◌, ◌%◌, ℕ, ◌+◌, ◌≤◌, ◌≡◌, arith, List, All, true, false,
}
use membrane_app_bitcoin_new.Parser.Stream.{unread}
use membrane_app_bitcoin_new.Parser.Resume.{Lowers, Resumes, Consumes, Shorter}
use membrane_app_bitcoin_new.Parser.Forms.{AtDone, update-Resumes, update-Consumes}
use membrane_app_bitcoin_new.Parser.Reads.{
  read_then-Resumes, read_then-Consumes, read_then-AtDone, read_varint_then-Resumes,
  read_varint_then-Consumes,
}
use membrane_app_bitcoin_new.Parser.Loops.{until-Lowers, until-Resumes, until-Consumes}
use membrane_app_bitcoin_new.Parser.Steps.{RunShorter, parser_run_from_start}
use membrane_app_bitcoin_new.Parser.{
  Progress, completed, incomplete, failed, ParsingStep, parser_run,
}
use membrane_app_bitcoin_new.Rawtx.{
  parse_rawtxinput_txid, parse_rawtxinput_vout, parse_rawtxinput_scriptsig_size,
  parse_rawtxinput_scriptsig_init, parse_rawtxinput_scriptsig, parse_rawtxinput_sequence,
  parse_rawtxoutput_value, parse_rawtxoutput_scriptpubkey_size, parse_rawtxoutput_scriptpubkey_init,
  parse_rawtxoutput_scriptpubkey, use_value, use_scriptpubkey_size, count_scriptpubkey, hash_update,
  Rawtx, hash_next, data_len, minus_u32, use_scriptsig, use_scriptpubkey, scriptsig_done,
  scriptpubkey_done, parse_rawtxinput_steps, parse_rawtxoutput_steps,
}

pub hash_next-Resumes : (n : ℕ) → Resumes (hash_next unread n)
unfolding hash_next
hash_next-Resumes n = read_then-Resumes (λ s. n) _

pub hash_next-Consumes : (n : ℕ) → Consumes (λ s. n) (hash_next unread n)
unfolding hash_next
hash_next-Consumes n = read_then-Consumes (λ s. n) _

-- No bytes are read only where none remain.
data_len_zero :
    (size counter : ℕ)
    → data_len size counter ≡ 0
    → (counter + data_len size counter) % 2 ^ 32 ≡ size % 2 ^ 32
unfolding data_len minus_u32
data_len_zero size counter h = ground arith

scriptsig_reads :
    (s : Rawtx) (bytes : List ℕ)
    → scriptsig_done (use_scriptsig bytes s).1 ≡ false
    → 1 ≤ data_len s.scriptsig_size s.scriptsig_counter
unfolding scriptsig_done use_scriptsig hash_update
scriptsig_reads s bytes e = ground (arith, data_len_zero s.scriptsig_size s.scriptsig_counter)

scriptpubkey_reads :
    (s : Rawtx) (bytes : List ℕ)
    → (use_scriptpubkey bytes s).0 ≡ true
    → scriptpubkey_done (use_scriptpubkey bytes s).1 ≡ false
    → 1 ≤ data_len s.scriptpubkey_size s.scriptpubkey_counter
unfolding scriptpubkey_done use_scriptpubkey count_scriptpubkey hash_update
scriptpubkey_reads s bytes e k =
    ground (arith, data_len_zero s.scriptpubkey_size s.scriptpubkey_counter)

scriptsig_goes_on :
    (s : Rawtx) (xs : List ℕ)
    → AtDone
        (λ s'. scriptsig_done s' ≡ false → 1 ≤ data_len s.scriptsig_size s.scriptsig_counter)
        (read_then unread
          (λ s'. data_len s'.scriptsig_size s'.scriptsig_counter)
          use_scriptsig
          s
          xs)
scriptsig_goes_on s xs =
    read_then-AtDone _ use_scriptsig _ s xs (λ bytes e. scriptsig_reads s bytes)

scriptsig-Resumes : Resumes (parse_rawtxinput_scriptsig unread)
unfolding parse_rawtxinput_scriptsig
scriptsig-Resumes =
    until-Resumes _ scriptsig_done (λ s. data_len s.scriptsig_size s.scriptsig_counter)
      (read_then-Consumes _ use_scriptsig) scriptsig_goes_on (read_then-Resumes _ use_scriptsig)

pub scriptsig-Lowers : Lowers (
    until_body
      (read_then unread (λ s. data_len s.scriptsig_size s.scriptsig_counter) use_scriptsig)
      scriptsig_done)
scriptsig-Lowers =
    until-Lowers _ scriptsig_done (λ s. data_len s.scriptsig_size s.scriptsig_counter)
      (read_then-Consumes _ use_scriptsig) scriptsig_goes_on

scriptsig-Consumes : Consumes (λ s. 0) (parse_rawtxinput_scriptsig unread)
unfolding parse_rawtxinput_scriptsig
scriptsig-Consumes =
    until-Consumes _ scriptsig_done (λ s. data_len s.scriptsig_size s.scriptsig_counter)
      (read_then-Consumes _ use_scriptsig)

scriptpubkey_goes_on :
    (s : Rawtx) (xs : List ℕ)
    → AtDone
        (λ s'.
          scriptpubkey_done s' ≡ false → 1 ≤ data_len s.scriptpubkey_size s.scriptpubkey_counter)
        (read_then unread
          (λ s'. data_len s'.scriptpubkey_size s'.scriptpubkey_counter)
          use_scriptpubkey
          s
          xs)
scriptpubkey_goes_on s xs =
    read_then-AtDone _ use_scriptpubkey _ s xs (λ bytes. scriptpubkey_reads s bytes)

scriptpubkey-Resumes : Resumes (parse_rawtxoutput_scriptpubkey unread)
unfolding parse_rawtxoutput_scriptpubkey
scriptpubkey-Resumes =
    until-Resumes _ scriptpubkey_done (λ s. data_len s.scriptpubkey_size s.scriptpubkey_counter)
      (read_then-Consumes _ use_scriptpubkey) scriptpubkey_goes_on
      (read_then-Resumes _ use_scriptpubkey)

pub scriptpubkey-Lowers : Lowers (
    until_body
      (read_then unread (λ s. data_len s.scriptpubkey_size s.scriptpubkey_counter) use_scriptpubkey)
      scriptpubkey_done)
scriptpubkey-Lowers =
    until-Lowers _ scriptpubkey_done (λ s. data_len s.scriptpubkey_size s.scriptpubkey_counter)
      (read_then-Consumes _ use_scriptpubkey) scriptpubkey_goes_on

scriptpubkey-Consumes : Consumes (λ s. 0) (parse_rawtxoutput_scriptpubkey unread)
unfolding parse_rawtxoutput_scriptpubkey
scriptpubkey-Consumes =
    until-Consumes _ scriptpubkey_done (λ s. data_len s.scriptpubkey_size s.scriptpubkey_counter)
      (read_then-Consumes _ use_scriptpubkey)

pub inputs_resume : All Resumes (parse_rawtxinput_steps unread)
unfolding parse_rawtxinput_steps parse_rawtxinput_txid parse_rawtxinput_vout
    parse_rawtxinput_scriptsig_size parse_rawtxinput_scriptsig_init parse_rawtxinput_sequence
inputs_resume = (
  hash_next-Resumes 32,
  (
    hash_next-Resumes 4,
    (
      read_varint_then-Resumes _,
      (update-Resumes _, (scriptsig-Resumes, (hash_next-Resumes 4, tt))),
    ),
  ),
)

pub outputs_resume : All Resumes (parse_rawtxoutput_steps unread)
unfolding parse_rawtxoutput_steps parse_rawtxoutput_value parse_rawtxoutput_scriptpubkey_size
    parse_rawtxoutput_scriptpubkey_init
outputs_resume = (
  read_then-Resumes _ use_value,
  (read_varint_then-Resumes use_scriptpubkey_size, (update-Resumes _, (scriptpubkey-Resumes, tt))),
)

pub fewer :
    (n : Rawtx → ℕ) (step : ParsingStep Rawtx (List ℕ)) → Consumes n step → Consumes (λ s. 0) step
fewer n step h s xs = go (step s xs) (h s xs)
  where
    go : (t : Progress × Rawtx × List ℕ) → Shorter (n s) (length xs) t → Shorter 0 (length xs) t
    go (completed, s', r) l = omega arith
    go (incomplete, s', r) l = l
    go (failed, s', r) l = omega arith

-- What follows the first step of an input, which reads 32 bytes, and of an output, which reads 8.
pub inputs_run :
    (s : Rawtx) (xs : List ℕ)
    → RunShorter 32 (length xs) (parser_run (parse_rawtxinput_steps unread) 0 s xs)
unfolding parse_rawtxinput_steps parse_rawtxinput_txid parse_rawtxinput_vout
    parse_rawtxinput_scriptsig_size parse_rawtxinput_scriptsig_init parse_rawtxinput_sequence
inputs_run s xs = parser_run_from_start _ _ 32 s xs (hash_next-Consumes 32) (
  fewer _ _ (hash_next-Consumes 4),
  (
    fewer _ _ (read_varint_then-Consumes _),
    (update-Consumes _, (scriptsig-Consumes, (fewer _ _ (hash_next-Consumes 4), tt))),
  ),
)

pub inputs_shorter : All (Consumes (λ s. 0)) (parse_rawtxinput_steps unread)
unfolding parse_rawtxinput_steps parse_rawtxinput_txid parse_rawtxinput_vout
    parse_rawtxinput_scriptsig_size parse_rawtxinput_scriptsig_init parse_rawtxinput_sequence
inputs_shorter = (
  fewer _ _ (hash_next-Consumes 32),
  (
    fewer _ _ (hash_next-Consumes 4),
    (
      fewer _ _ (read_varint_then-Consumes _),
      (update-Consumes _, (scriptsig-Consumes, (fewer _ _ (hash_next-Consumes 4), tt))),
    ),
  ),
)

pub outputs_shorter : All (Consumes (λ s. 0)) (parse_rawtxoutput_steps unread)
unfolding parse_rawtxoutput_steps parse_rawtxoutput_value parse_rawtxoutput_scriptpubkey_size
    parse_rawtxoutput_scriptpubkey_init
outputs_shorter = (
  fewer _ _ (read_then-Consumes _ use_value),
  (
    fewer _ _ (read_varint_then-Consumes use_scriptpubkey_size),
    (update-Consumes _, (scriptpubkey-Consumes, tt)),
  ),
)

pub outputs_run :
    (s : Rawtx) (xs : List ℕ)
    → RunShorter 8 (length xs) (parser_run (parse_rawtxoutput_steps unread) 0 s xs)
unfolding parse_rawtxoutput_steps parse_rawtxoutput_value parse_rawtxoutput_scriptpubkey_size
    parse_rawtxoutput_scriptpubkey_init
outputs_run s xs = parser_run_from_start _ _ 8 s xs (read_then-Consumes _ use_value) (
  fewer _ _ (read_varint_then-Consumes use_scriptpubkey_size),
  (update-Consumes _, (scriptpubkey-Consumes, tt)),
)
