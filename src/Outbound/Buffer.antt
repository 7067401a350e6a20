-- ===== src/Outbound/Buffer.antt =====
-- Where `akamata_fetch` of deploy/worker/index.mjs leaves the answer in the memory.
use akamata.Prelude.{
  ℕ, ◌+◌, ◌*◌, ◌%◌, ◌≤◌, ◌≡◌, sym, ap, ◌∙◌, subst, Option, none, some, List, [], ◌∷◌, ◌++◌, arith,
  length, length-append,
}
use akamata.Prelude.Numbers.{pos, minus}
use akamata.Text.Utf8.{encode}
use akamata.Memory.{Memory, read_bytes}
use akamata.Memory.Sequel.{
  overwritten, read_bytes-overwritten, read_bytes-overwritten_twice, AreApart,
  read_bytes-overwritten_apart,
}
use akamata.Instance.{Exports, written, write_request}
use akamata.Instance.Written.{
  IsLinear, after_write, write-eq, after_both, write_request-eq, after_both-memory,
}
use akamata.Outbound.{
  Upstream, reply_head, reply_bytes, little_endian, set_uint32, then_length, announce, deliver,
}

-- the number of four bytes, the lowest first
abbrev pub value_of_bytes : List ℕ → ℕ
value_of_bytes [] = 0
value_of_bytes (b ∷ bs) = b + 256 * value_of_bytes bs

pub value-little_endian : (n : ℕ) → value_of_bytes (little_endian n) ≡ n % 0x100000000
unfolding little_endian
value-little_endian n = omega arith

-- where the two words and the buffer lie
pub record IsLaidOut (size buf_ptr total out_ptr_addr out_len_addr : ℕ) : Type 0 where
  pub buffer : buf_ptr + total ≤ size
  pub pointer : out_ptr_addr + 4 ≤ size
  pub length_word : out_len_addr + 4 ≤ size
  pub words_apart : AreApart out_ptr_addr 4 out_len_addr 4
  pub pointer_apart : AreApart buf_ptr total out_ptr_addr 4
  pub length_apart : AreApart buf_ptr total out_len_addr 4

module _ {S : Type 0} (x : Exports S) (linear : IsLinear x) where
  set_uint32-eq :
      (addr n : ℕ) (s : S)
      → addr + 4 ≤ (x.memory s).size
      → set_uint32 x addr n s ≡ some (after_write x linear addr (little_endian n) s)
  unfolding set_uint32 little_endian
  set_uint32-eq addr n s fits = write-eq x linear addr (little_endian n) s fits

  abbrev pointed : ℕ → ℕ → ℕ → ℕ → S → S
  pointed buf_ptr total out_ptr_addr out_len_addr s =
      after_write x linear out_len_addr (little_endian total)
        (after_write x linear out_ptr_addr (little_endian buf_ptr) s)

  announce-written :
      (buf_ptr total out_ptr_addr out_len_addr : ℕ) (s : S)
      → out_ptr_addr + 4 ≤ (x.memory s).size
      → out_len_addr + 4 ≤ (x.memory s).size
      → announce x buf_ptr total out_ptr_addr out_len_addr (written s)
        ≡ (pos 0, pointed buf_ptr total out_ptr_addr out_len_addr s)
  unfolding announce
  announce-written buf_ptr total out_ptr_addr out_len_addr s a b =
      let s' = after_write x linear out_ptr_addr (little_endian buf_ptr) s in
      ap (then_length x out_len_addr total s) (set_uint32-eq out_ptr_addr buf_ptr s a)
      ∙ ap (λ (o : Option S). elim o [ none ↦ (minus 2, s') | some s'' ↦ (pos 0, s'') ])
          (set_uint32-eq out_len_addr total s' (
            subst (λ (m : Memory). out_len_addr + 4 ≤ m.size)
              (sym (linear s (overwritten (x.memory s) out_ptr_addr (little_endian buf_ptr)))) b))

  pointed-memory :
      (buf_ptr total out_ptr_addr out_len_addr : ℕ) (s : S)
      → x.memory (pointed buf_ptr total out_ptr_addr out_len_addr s)
        ≡ overwritten
            (overwritten (x.memory s) out_ptr_addr (little_endian buf_ptr))
            out_len_addr
            (little_endian total)
  pointed-memory buf_ptr total out_ptr_addr out_len_addr s =
      linear (after_write x linear out_ptr_addr (little_endian buf_ptr) s) _
      ∙ ap (λ m. overwritten m out_len_addr (little_endian total))
          (linear s (overwritten (x.memory s) out_ptr_addr (little_endian buf_ptr)))

-- the memory with the answer, and the two words behind
abbrev laid_out : Memory → List ℕ → List ℕ → ℕ → ℕ → ℕ → ℕ → Memory
laid_out m head body buf_ptr total out_ptr_addr out_len_addr =
    overwritten
      (overwritten (overwritten (overwritten m buf_ptr head) (buf_ptr + length head) body)
        out_ptr_addr (little_endian buf_ptr))
      out_len_addr (little_endian total)

-- the number in the word at `addr`, modulo 2 ^ 32
abbrev pub HoldsWord : Memory → ℕ → ℕ → Type 0
HoldsWord m addr n =
    (w : List ℕ) × (read_bytes m addr 4 ≡ some w) × (value_of_bytes w ≡ n % 0x100000000)

-- A buffer with `bytes` at `buf_ptr`, and its address and length in the two words.
pub record Delivered (m : Memory) (bytes : List ℕ) (buf_ptr out_ptr_addr out_len_addr : ℕ)
    : Type 0 where
  pub bytes_there : read_bytes m buf_ptr (length bytes) ≡ some bytes
  pub pointer_there : HoldsWord m out_ptr_addr buf_ptr
  pub length_there : HoldsWord m out_len_addr (length bytes)

laid_out-Delivered :
    (m : Memory) (head body : List ℕ) (buf_ptr total out_ptr_addr out_len_addr : ℕ)
    → total ≡ length head + length body
    → IsLaidOut m.size buf_ptr total out_ptr_addr out_len_addr
    → Delivered
        (laid_out m head body buf_ptr total out_ptr_addr out_len_addr)
        (head ++ body)
        buf_ptr
        out_ptr_addr
        out_len_addr
unfolding little_endian
laid_out-Delivered m head body buf_ptr total out_ptr_addr out_len_addr size o =
    let m2 = overwritten (overwritten m buf_ptr head) (buf_ptr + length head) body in
    let m3 = overwritten m2 out_ptr_addr (little_endian buf_ptr) in
    let whole : length (head ++ body) ≡ total = length-append head body ∙ sym size in
    record {
      bytes_there =
          ap (read_bytes (overwritten m3 out_len_addr (little_endian total)) buf_ptr) whole
          ∙ read_bytes-overwritten_apart m3 buf_ptr total out_len_addr (little_endian total)
              o.length_apart
          ∙ read_bytes-overwritten_apart m2 buf_ptr total out_ptr_addr (little_endian buf_ptr)
              o.pointer_apart
          ∙ ap (read_bytes m2 buf_ptr) size
          ∙ read_bytes-overwritten_twice m buf_ptr head body (omega (arith, size, o.buffer));
      pointer_there = (
        little_endian buf_ptr,
        read_bytes-overwritten_apart m3 out_ptr_addr 4 out_len_addr (little_endian total)
              o.words_apart
            ∙ read_bytes-overwritten m2 out_ptr_addr (little_endian buf_ptr) o.pointer,
        value-little_endian buf_ptr,
      );
      length_there = (
        little_endian total,
        read_bytes-overwritten m3 out_len_addr (little_endian total) o.length_word,
        value-little_endian total ∙ ap (λ n. n % 0x100000000) (sym whole),
      );
    }

-- Let the memory hold what is written into it; let the buffer that `alloc` gives for the answer, and the two words for its address
-- and its length, lie in the memory, apart from each other. Then `akamata_fetch`, once it has the answer of the other server, returns 0, and
-- afterwards the buffer holds the bytes of the answer, and the two words hold its address and its length, little endian and
-- modulo 2 ^ 32.
pub deliver-Delivered :
    {S : Type 0} (x : Exports S) (u : Upstream) (out_ptr_addr out_len_addr : ℕ) (s : S)
    → IsLinear x
    → IsLaidOut
        (x.memory (x.alloc (length (reply_bytes u)) s).1).size
        (x.alloc (length (reply_bytes u)) s).0
        (length (reply_bytes u))
        out_ptr_addr
        out_len_addr
    → (s' : S) × (deliver x u out_ptr_addr out_len_addr s ≡ (pos 0, s'))
      × Delivered
          (x.memory s')
          (reply_bytes u)
          (x.alloc (length (reply_bytes u)) s).0
          out_ptr_addr
          out_len_addr
unfolding reply_bytes deliver
deliver-Delivered {S} x u out_ptr_addr out_len_addr s linear o =
    let head = encode (reply_head u) in
    let total = length (head ++ u.body) in
    let buf_ptr = (x.alloc total s).0 in
    let s0 = (x.alloc total s).1 in
    let s2 = after_both x linear buf_ptr head u.body s0 in
    let size : total ≡ length head + length u.body = length-append head u.body in
    let memory = after_both-memory x linear buf_ptr head u.body s0 in
    (
      pointed x linear buf_ptr total out_ptr_addr out_len_addr s2,
      ap
            (λ n.
              let (p, s') = x.alloc n s in
              announce x p n out_ptr_addr out_len_addr (write_request x p head u.body s'))
            (sym size)
          ∙ ap (announce x buf_ptr total out_ptr_addr out_len_addr)
              (write_request-eq x linear buf_ptr head u.body s0 (omega (arith, size, o.buffer)))
          ∙ announce-written x linear buf_ptr total out_ptr_addr out_len_addr s2
              (subst (λ (m : Memory). out_ptr_addr + 4 ≤ m.size) (sym memory) o.pointer)
              (subst (λ (m : Memory). out_len_addr + 4 ≤ m.size) (sym memory) o.length_word),
      subst (λ m. Delivered m (head ++ u.body) buf_ptr out_ptr_addr out_len_addr)
          (sym (
            pointed-memory x linear buf_ptr total out_ptr_addr out_len_addr s2
            ∙ ap
                (λ m.
                  overwritten (overwritten m out_ptr_addr (little_endian buf_ptr)) out_len_addr
                    (little_endian total))
                memory))
          (laid_out-Delivered (x.memory s0) head u.body buf_ptr total out_ptr_addr out_len_addr size
            o),
    )
