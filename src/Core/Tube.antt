-- ===== src/Core/Tube.antt =====
-- The way of the text that a core prints (`io_printf`, spin_emu_io.c) through the dispatcher
-- (`dispatch_sdp` and `dispatch_sdp_to_ether`, spin_emu_dispatcher.c) to the host.
use spi_nnaker_emulator.Base.{
  ℕ, ◌+◌, ◌-◌, ◌≤◌, ◌≡◌, refl, ap, ◌∙◌, arith, List, [], ◌∷◌, ◌++◌, some, u16, le_bytes,
  from_le-le_bytes, length, drop, take, All, take_all, drop_all, length-drop, true, take-append,
  append-nil, append_assoc, leb, ntohs,
}
use spi_nnaker_emulator.Base.Outcome.{ok}
use spi_nnaker_emulator.Grid.{get_chip_id}
use spi_nnaker_emulator.Sdp.Message.{Msg, short_bytes, arg_bytes, overlay, msg_bytes}
use spi_nnaker_emulator.Sdp.RoundTrip.{IsMsg}
use spi_nnaker_emulator.Sdp.Overlay.{
  IsByte, overlaid, word_at-lt, length-overlaid, overlaid-AreBytes, arg_bytes-overlay,
}
use spi_nnaker_emulator.Dispatcher.State.{Dispatcher}
use spi_nnaker_emulator.Dispatcher.Commands.{dispatch_sdp_to_ether}
use spi_nnaker_emulator.Dispatcher.Process.{dispatch_sdp_one, dispatch_sdp}
use spi_nnaker_emulator.Core.Packets.{Core, send_sdp_msg}
use spi_nnaker_emulator.Core.Print.{io_std, message, io_printf, copy_text}
use spi_nnaker_emulator.Core.Transport.{sdp_arrives}

-- What stands in front of the text in a message of a chip with packed coordinates `id`.
abbrev pub tube_header : ℕ → Msg → Core → List ℕ
tube_header id fresh c =
    fresh.flags
    ∷ 0
    ∷ 255
    ∷ c.core
    ∷ (short_bytes 0 ++ (short_bytes (u16 id) ++ (short_bytes 64 ++ short_bytes fresh.seq)))

-- The dispatcher after one more datagram with `bs` to the address of tag 0.
abbrev pub told_host : List ℕ → Dispatcher → Dispatcher
told_host bs d = record d {
  ether =
      d.ether
      ++ record {
        bytes = 1 ∷ 0 ∷ bs;
        to_port = ntohs (d.tags.table 0).port;
        to_ip = (d.tags.table 0).ip;
      }
        ∷ [];
}

-- The message that holds the text.
abbrev tube : List ℕ → ℕ → Msg → Core → Msg
tube text id fresh c = record (overlay text fresh) {
  tag = 0;
  dest_port = 255;
  dest_addr = 0;
  srce_port = c.core;
  srce_addr = u16 id;
  cmd_rc = 64;
  length = u16 (length text + 12);
  pad = fresh.pad;
}

module _ (text : List ℕ) (fresh : Msg) (c : Core) (id : ℕ) (fits : length text ≤ 268)
    (bytes : All IsByte text) (v : IsMsg fresh) (bytes' : All IsByte fresh.body)
    (at : get_chip_id c.dims c.chip ≡ some id) where
  io_printf-tube : io_printf io_std text fresh c ≡ ok (message (tube text id fresh c))
  unfolding io_printf copy_text
  io_printf-tube =
      let all = take_all 1023 text (omega (arith, fits)) in
      let e : length text - 268 ≡ 0 = omega (arith, fits) in
      let room : leb (length text) 272 ≡ true = ground arith in
      rw
        (
          all,
          room,
          take_all 268 text fits,
          drop_all 268 text fits,
          e,
          at,
          from_le-le_bytes fresh.pad v.pad_fits,
        )
        refl

  tube-IsMsg : IsMsg (tube text id fresh c)
  unfolding overlay
  tube-IsMsg =
      let o = overlaid-AreBytes text fresh fits v.body_fits bytes bytes' in
      record {
        length_fits = omega arith;
        checksum_fits = v.checksum_fits;
        dest_addr_fits = omega arith;
        srce_addr_fits = omega arith;
        cmd_rc_fits = omega arith;
        seq_fits = v.seq_fits;
        arg1_fits = word_at-lt (overlaid text fresh) 0 o;
        arg2_fits = word_at-lt (overlaid text fresh) 4 o;
        arg3_fits = word_at-lt (overlaid text fresh) 8 o;
        pad_fits = v.pad_fits;
        body_fits = omega (
          arith,
          length-overlaid text fresh fits v.body_fits,
          length-drop 12 (overlaid text fresh)
              (omega (arith, length-overlaid text fresh fits v.body_fits)),
        );
      }

  take-tube :
      take (u16 (length text + 12)) (msg_bytes (tube text id fresh c))
      ≡ tube_header id fresh c ++ text
  unfolding msg_bytes overlay
  take-tube =
      let e : u16 (length text + 12) ≡ 12 + length text = omega (arith, fits) in
      let header = tube_header id fresh c in
      let rest = drop (length text) (arg_bytes fresh) ++ le_bytes fresh.pad in
      let o = arg_bytes-overlay text fresh fits v.body_fits bytes bytes' in
      let assoc = append_assoc text (drop (length text) (arg_bytes fresh)) (le_bytes fresh.pad) in
      ap (λ k. take k (msg_bytes (tube text id fresh c))) e
      ∙ ap (λ xs. take (12 + length text) (header ++ (xs ++ le_bytes fresh.pad))) o
      ∙ ap (λ xs. take (12 + length text) (header ++ xs)) assoc
      ∙ take-append header (text ++ rest) (length text) (12 + length text) (omega arith)
      ∙ ap (λ xs. header ++ xs)
          (take-append text rest 0 (length text) (omega arith) ∙ append-nil text)

  dispatch_sdp_to_ether-tube :
      (d : Dispatcher)
      → dispatch_sdp_to_ether (tube text id fresh c) d
        ≡ ok (told_host (tube_header id fresh c ++ text) d)
  unfolding dispatch_sdp_to_ether
  dispatch_sdp_to_ether-tube d =
      let size : leb (u16 (length text + 12)) 288 ≡ true = ground arith in
      let size' : leb (u16 (length text + 12)) 284 ≡ true = ground arith in
      rw (size, size', take-tube) refl

  -- On a chip of the board, a text of at most 268 bytes, with the prefix, comes to the host:
  -- `io_printf` to IO_STD fills a new message, whose fields have their widths and whose data are
  -- bytes, without an overrun, and the dispatcher that receives what `spin1_send_sdp_msg` sends
  -- for it passes one datagram to the address of tag 0, with a header of 12 bytes that names the
  -- core and the chip, and with the text, byte by byte. Nothing else of the dispatcher changes.
  pub dispatch_sdp-io_printf :
      (next : ℕ) (d : Dispatcher)
      → (m : Msg) × (io_printf io_std text fresh c ≡ ok (message m))
        × (dispatch_sdp (drop 1 (send_sdp_msg next m)) d
            ≡ ok (told_host (tube_header id fresh c ++ text) d))
  unfolding dispatch_sdp_one
  dispatch_sdp-io_printf next d = (
    tube text id fresh c,
    io_printf-tube,
    (sdp_arrives (λ ev s. s) next 0 0 (tube text id fresh c) d c tube-IsMsg).0
        ∙ dispatch_sdp_to_ether-tube d,
  )
