-- ===== src/Protocol/Slices/Alloc.antt =====
-- The frames of alloc_data_frames can be sent, and carry the data.
use soc.Common.{
  ℕ, zero, suc, ◌+◌, ◌-◌, ◌*◌, ◌≤◌, ◌<◌, ◌≡◌, refl, ap, subst, ◌∙◌, List, [], ◌∷◌, length,
  length-append, length-replicate, replicate, All, All-append, All-parts, some, arith,
}
use soc.Common.Effects.{returns}
use soc.Protocol.Data.{DataFrame, tp_header}
use soc.Protocol.Receive.Transfer.{Sendable}
use soc.Protocol.Slices.{
  at_addr, id_to_n_frame, frames_needed, data_to_data_frames, init_from, init_data_frames,
  fill_data_frames, alloc_data_frames,
}
use soc.Protocol.Slices.Carries.{Carries}
use soc.Protocol.Slices.Join.{Prepared, Holds, slices-Holds, frames_needed_bounds, joined}

-- The memory of malloc, where each field has some value of its type.
abbrev pub IsMemory : List DataFrame → Type 0
IsMemory = All (λ f. (f.n_total_frame < 16777216) × (f.check_sum < 65536))

-- The payloads of malloc's memory are arrays of 512 bytes.
abbrev pub Payloads : List DataFrame → Type 0
Payloads = All (λ f. length f.payload ≡ 512)

id_to_n_frame-lt : (i n : ℕ) → i < 65536 → id_to_n_frame i n < 65536
unfolding id_to_n_frame
id_to_n_frame-lt i n h = ground arith

pub init_from-Prepared :
    (i n n_file flag total : ℕ) (frames : List DataFrame)
    → i + length frames ≤ 65536
    → n_file < 4294967296
    → flag < 256
    → total < 4294967296
    → IsMemory frames
    → (out : List DataFrame) × (init_from (length frames) i frames n n_file flag total
        ≡ returns out)
      × All Prepared out
      × (length out ≡ length frames)
      × (Payloads frames → Payloads out)
unfolding init_from
init_from-Prepared i n n_file flag total [] h a b c m = ([], refl, tt, refl, λ k. tt)
init_from-Prepared i n n_file flag total (f ∷ frames) h a b c m =
    let (out, e, p, l, keeps) =
      init_from-Prepared (i + 1) n n_file flag total frames (omega arith) a b c m.1 in
    (
      record f {
        header = tp_header;
        flag = flag;
        n_file = n_file;
        n_frame = id_to_n_frame i n;
        total_data_len = total;
      }
          ∷ out,
      rw e refl,
      ((refl, m.0.0, b, a, id_to_n_frame-lt i n (omega arith), c, m.0.1), p),
      ap suc l,
      λ k. (k.0, keeps k.1),
    )

pub zeros-IsByte : (n : ℕ) → All (λ x. x < 256) (replicate n 0)
zeros-IsByte zero = tt
zeros-IsByte (suc n) = (omega arith, zeros-IsByte n)

one-Sendable :
    (f : DataFrame)
    → Prepared f
    → f.data_len < 65536
    → length f.payload ≡ 512
    → All (λ x. x < 256) f.payload
    → Sendable f
one-Sendable f (h, t, fl, nf, nr, td, cs) dl l b = record {
  fits = record {
    header = ap length h;
    header_bytes = rw h ((omega arith, (omega arith, (omega arith, (omega arith, tt)))));
    n_total_frame = t;
    flag = fl;
    n_file = nf;
    n_frame = nr;
    total_data_len = td;
    data_len = dl;
    payload = l;
    payload_bytes = b;
    check_sum = cs;
  };
  header = h;
}

pub Holds-Sendable :
    {p : List ℕ} {frames : List DataFrame}
    → Holds p frames
    → All Prepared frames
    → All (λ x. x < 256) p
    → All Sendable frames
Holds-Sendable (Holds.end p f d pos small e) pr b = (
  one-Sendable f pr.0 (omega arith)
      (ap length e ∙ length-append p _ ∙ omega (arith, length-replicate {A = ℕ} (512 - length p) 0))
      (rw e (All-append (λ x. x < 256) p _ b (zeros-IsByte (512 - length p)))),
  tt,
)
Holds-Sendable (Holds.more {p} {frames} s f d e l h) pr b =
    let parts = All-parts (λ x. x < 256) s p b in
    (
      one-Sendable f pr.0 (omega arith) (ap length e ∙ l) (rw e parts.0),
      Holds-Sendable h pr.1 parts.1,
    )

alloc-filled :
    (memory frames out : List DataFrame) (k n_file flag total : ℕ) (bytes : List ℕ)
    → length memory ≡ k
    → init_from (length memory) 0 memory k n_file flag total ≡ returns frames
    → data_to_data_frames bytes (length bytes) frames ≡ returns out
    → alloc_data_frames (some memory) k n_file (at_addr bytes (length bytes)) flag total
      ≡ returns (some out)
unfolding alloc_data_frames init_data_frames fill_data_frames
alloc-filled memory frames out k n_file flag total bytes m made filled =
    let made' : init_from k 0 memory k n_file flag total ≡ returns frames =
      subst (λ j. init_from j 0 memory k n_file flag total ≡ returns frames) m made in
    rw (made', filled) refl

-- alloc_data_frames, for up to 65535 * 512 bytes at an address and as many frames as they need,
-- returns frames that each fit their types and have the protocol's header, whatever malloc's memory
-- held, and from which data_frames_to_data and data_frame_to_data_len give the data and its length.
pub alloc_data_frames_lem :
    (memory : List DataFrame) (n_file flag total : ℕ) (bytes : List ℕ)
    → 0 < length bytes
    → length bytes ≤ 65535 * 512
    → All (λ x. x < 256) bytes
    → length memory ≡ frames_needed (length bytes)
    → IsMemory memory
    → n_file < 4294967296
    → flag < 256
    → total < 4294967296
    → (frames : List DataFrame) × (alloc_data_frames
          (some memory)
          (frames_needed (length bytes))
          n_file
          (at_addr bytes (length bytes))
          flag
          total
        ≡ returns (some frames))
      × (length frames ≡ frames_needed (length bytes))
      × All Sendable frames
      × Carries frames bytes
unfolding data_to_data_frames
alloc_data_frames_lem memory n_file flag total bytes pos h b m mem nf fl td =
    let (lo, hi, some_frame) = frames_needed_bounds (length bytes) pos in
    let (frames, made, prepared, size, _) =
      init_from-Prepared 0 (frames_needed (length bytes)) n_file flag total memory (omega arith) nf
        fl td mem in
    let (out, eq, holds, same_size, keeps) =
      slices-Holds (frames_needed (length bytes)) (length bytes) 0 bytes frames (omega arith)
        (omega arith) (omega arith) lo hi (omega arith) in
    let both = joined (length out) holds refl (omega arith) in
    (
      out,
      alloc-filled memory frames out (frames_needed (length bytes)) n_file flag total bytes m made
          eq,
      same_size ∙ size ∙ m,
      Holds-Sendable holds (keeps prepared) b,
      record { bytes = both.0; len = both.1 },
    )
