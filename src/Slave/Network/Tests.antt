-- ===== src/Slave/Network/Tests.antt =====
-- The theorem about process_data_frames, applied to a picture of which the accelerator makes
-- coefficients of the right sizes.
use soc.Common.{ℕ, ◌*◌, ◌%◌, refl, [], ◌∷◌, none, some, true, ◌==◌, if◌then◌else◌}
use soc.Common.Effects.{Ends, ℤ, pos, negsuc}
use soc.Protocol.Samples.{picture_frame}
use soc.Driver.Registers.{NetworkAccReg}
use soc.Driver.Access.{Pointer}
use soc.Driver.Device.{Request}
use soc.Coder.Codings.Example.{example_tables}
use soc.Slave.Process.{process_data_frames}
use soc.Slave.Encode.Flat.{zero_entry, IsPlain}
use soc.Slave.Network.{ChannelRun, encode_yuv}
use soc.Slave.Network.Whole.{IsAnswered, coefficients_of, process_data_frames-IsPlain}

abbrev no_regs : NetworkAccReg
no_regs = record {
  control = 0;
  weight_addr = 0;
  weight_size = 0;
  quantify_addr = 0;
  quantify_size = 0;
  picture_addr = 0;
  picture_size = 0;
  trans_addr = 0;
  trans_size = 0;
  entropy_addr = 0;
  entropy_size = 0;
}

-- Coefficients 3 and -5 in turn.
abbrev wave_word : ℕ → ℤ
wave_word i = if i % 2 == 0 then pos 3 else negsuc 4

abbrev one_word : ℕ → ℕ
one_word i = 1

-- A request that finds `n` coefficients.
abbrev request : ℕ → Request
request n = record {
  trans = none;
  regs = none;
  completed = true;
  results = record {
    trans_addr = 4096;
    trans_size = 2 * n;
    entropy_addr = 8192;
    entropy_size = 18 * n;
  };
  copied_out = true;
  iargs = no_regs;
}

abbrev channel_run : ℕ → ChannelRun
channel_run n = record {
  mapped = Pointer.memory 65536;
  write_done = true;
  unmapped = true;
  config = request n;
  start = request n;
  get = request n;
  trans_read = record { done = true; mapped = Pointer.memory 65536 };
  entropy_read = record { done = true; mapped = Pointer.memory 131072 };
  trans_word = wave_word;
  entropy_word = one_word;
  gmm = some (λ j. zero_entry);
}

channel_run-IsAnswered : (n : ℕ) → IsAnswered (channel_run n)
channel_run-IsAnswered n = record {
  place = 65536;
  mapped = refl;
  written = refl;
  unmapped = refl;
  copied_out = refl;
  trans_place = 65536;
  trans_mapped = refl;
  trans_done = refl;
  entropy_place = 131072;
  entropy_mapped = refl;
  entropy_done = refl;
}

abbrev y_run : ChannelRun
y_run = channel_run 8294400

abbrev uv_run : ChannelRun
uv_run = channel_run 2088960

process_data_frames-IsPlain_example :
    Ends
      (λ result. IsPlain (coefficients_of y_run) (coefficients_of uv_run) (coefficients_of uv_run))
      (process_data_frames
        (encode_yuv 33 [] (λ n. true) example_tables y_run uv_run uv_run no_regs)
        (record { input = true; stream = true })
        (picture_frame ∷ [])
        1
        none)
process_data_frames-IsPlain_example =
    process_data_frames-IsPlain 33 [] (λ n. true) example_tables y_run uv_run uv_run no_regs
      (record { input = true; stream = true }) (picture_frame ∷ []) 1 none
      (channel_run-IsAnswered 8294400) (channel_run-IsAnswered 2088960)
      (channel_run-IsAnswered 2088960) refl refl refl
