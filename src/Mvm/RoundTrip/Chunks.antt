-- ===== src/Mvm/RoundTrip/Chunks.antt =====
-- Chunks, and the source information.
use myon.Base.{◌^◌, ◌<◌, List, [], ◌∷◌, ◌++◌, append-nil, append_assoc, Bytes, length}
use myon.Mvm.{LineEntry, Chunk, Module}
use myon.Mvm.Writer.{buf_u32, ser_line, ser_all, ser_chunk}
use myon.Mvm.Reader.Monad.{Rd}
use myon.Mvm.Reader.{read_lines, read_chunk, add_chunk, read_each, read_hash, unless_err}
use myon.Mvm.RoundTrip.Fields.{
  Reads, Reads-pure, Reads-bind, Reads-end, Reads-rd8, Reads-rd_le, IsCString, Reads-rdstr,
  Reads-rd_bytes, Reads-byte,
}
use myon.Mvm.RoundTrip.Pools.{All, Reads-read_each}

abbrev pub LineFits : LineEntry → Type 0
LineFits l = (l.code_off < 2 ^ 32) × (l.line < 2 ^ 32)

Reads-lines :
    (ls : List LineEntry)
    → All LineFits ls
    → Reads (read_lines (length ls)) (ser_all ser_line ls) ls
unfolding read_lines
Reads-lines [] fits = Reads-pure []
Reads-lines (l ∷ ls) fits =
    rw (append_assoc (buf_u32 l.code_off) (buf_u32 l.line) (ser_all ser_line ls)) (
      Reads-bind _ (Reads-rd_le 4 l.code_off fits.0.0) (
        Reads-bind _ (Reads-rd_le 4 l.line fits.0.1)
          (Reads-end _ (Reads-lines ls fits.1) (Reads-pure _))))

pub record ChunkFits (c : Chunk) : Type 0 where
  pub name : IsCString c.name
  pub num_params : c.num_params < 2 ^ 16
  pub num_locals : c.num_locals < 2 ^ 16
  pub ret_count : c.ret_count < 2 ^ 16
  pub is_async : c.is_async < 256
  pub captured : length c.captured < 2 ^ 16
  pub code : length c.code < 2 ^ 32
  pub lines : length c.lines < 2 ^ 32
  pub each_line : All LineFits c.lines

Reads-unless_err {ℓ} :
    {A : Type ℓ} {m : Rd A} {xs : Bytes} {b : A} (a : A)
    → Reads m xs b
    → Reads (unless_err a m) xs b
Reads-unless_err a h = record { run = h.run }

Reads-chunk : (c : Chunk) → ChunkFits c → Reads read_chunk (ser_chunk c) c
unfolding read_chunk ser_chunk
Reads-chunk c fits = Reads-bind _ (Reads-rdstr c.name fits.name) (
    Reads-bind _ (Reads-rd_le 2 c.num_params fits.num_params) (
      Reads-bind _ (Reads-rd_le 2 c.num_locals fits.num_locals) (
        Reads-bind _ (Reads-rd_le 2 c.ret_count fits.ret_count) (
          Reads-bind _ (Reads-rd8 c.is_async fits.is_async) (
            Reads-bind _ (Reads-rd_le 2 (length c.captured) fits.captured) (
              Reads-bind _ (Reads-rd_bytes c.captured) (
                Reads-bind _ (Reads-rd_le 4 (length c.code) fits.code) (
                  Reads-bind _ (Reads-rd_bytes c.code) (
                    Reads-end _
                      (Reads-unless_err [] (
                        Reads-bind _ (Reads-rd_le 4 (length c.lines) fits.lines)
                          (Reads-lines c.lines fits.each_line)))
                      (Reads-pure _))))))))))

pub Reads-chunks :
    (cs : List Chunk) (m : Module)
    → All ChunkFits cs
    → Reads
        (read_each (length cs) add_chunk m)
        (ser_all ser_chunk cs)
        (record m { chunks = m.chunks ++ cs })
Reads-chunks [] m fits = rw append-nil (unfold read_each in Reads-pure m)
Reads-chunks (c ∷ cs) m fits =
    let m' = record m { chunks = m.chunks ++ c ∷ [] } in
    let one : Reads (add_chunk m) (ser_chunk c) m' =
      Reads-end _ (Reads-chunk c fits.0) (Reads-pure _) in
    Reads-read_each (length cs) add_chunk m one (rw append_assoc at (Reads-chunks cs m' fits.1))

pub Reads-hash : (h : Bytes) → Reads (read_hash (length h)) h h
unfolding read_hash
Reads-hash [] = Reads-pure []
Reads-hash (b ∷ bs) = Reads-bind _ (Reads-byte b) (Reads-end _ (Reads-hash bs) (Reads-pure _))
