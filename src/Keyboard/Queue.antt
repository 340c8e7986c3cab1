-- ===== src/Keyboard/Queue.antt =====
-- The buffer of scan codes against a plain queue, for any sequence of interrupts and reads.
use minx.Prelude.{ℕ, ◌≡◌, refl, List, [], ◌∷◌, Result, ok, stop, hang, ◌>>=◌}
use minx.Keyboard.{KbBuf, put_scan_code, get_scan_code_from_kb_buf, init_buf}
use minx.Keyboard.Buffer.{Holds, pushed, put_scan_code-Holds, get_scan_code-Holds, init_buf-Holds}

-- A keyboard interrupt with a scan code, or a call of `get_scanCode_from_kbBuf`.
pub data Event : Type 0 where
  pressed : ℕ → Event
  read : Event

-- The codes that the reads return.
pub codes_read : List Event → KbBuf → Result (List ℕ)
codes_read [] b = ok []
codes_read (pressed c ∷ es) b = codes_read es (put_scan_code c b)
codes_read (read ∷ es) b = do
  r ← get_scan_code_from_kb_buf b
  rest ← codes_read es r.1
  ok (r.0 ∷ rest)

-- The same of a queue that loses the codes for which it has no place.
pub queue_read : List Event → List ℕ → Result (List ℕ)
queue_read [] xs = ok []
queue_read (pressed c ∷ es) xs = queue_read es (pushed xs c)
queue_read (read ∷ es) [] = stop hang
queue_read (read ∷ es) (x ∷ xs) = do rest ← queue_read es xs; ok (x ∷ rest)

get-empty : (b : KbBuf) → Holds b [] → get_scan_code_from_kb_buf b ≡ stop hang
unfolding get_scan_code_from_kb_buf
get-empty b h = rw h.counted refl

codes_read-queue :
    (es : List Event) (b : KbBuf) (xs : List ℕ) → Holds b xs → codes_read es b ≡ queue_read es xs
unfolding codes_read queue_read
codes_read-queue [] b xs h = refl
codes_read-queue (pressed c ∷ es) b xs h =
    codes_read-queue es (put_scan_code c b) (pushed xs c) (put_scan_code-Holds b xs c h)
codes_read-queue (read ∷ es) b [] h = rw (get-empty b h) refl
codes_read-queue (read ∷ es) b (x ∷ xs) h =
    let (b', run, h') = get_scan_code-Holds b x xs h in rw (run, codes_read-queue es b' xs h') refl

-- After `init_keyboard`, any sequence of keyboard interrupts and reads goes as with a first-in
-- first-out queue of at most 32 scan codes: the reads return the codes in the order they came, a
-- code that comes when 32 wait is lost, and a read of the empty buffer waits.
pub codes_read-init : (es : List Event) (b : KbBuf) → codes_read es (init_buf b) ≡ queue_read es []
codes_read-init es b = codes_read-queue es (init_buf b) [] (init_buf-Holds b)
