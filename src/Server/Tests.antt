-- ===== src/Server/Tests.antt =====
-- The theorems on the connection handlers (fastwsgi/server.c) at concrete inputs.
use fastpysgi.Base.{◌≡◌, refl, true, false, none, some, [], ◌∷◌, arith, pos, codes}
use fastpysgi.Base.Print.{upper_hex}
use fastpysgi.Client.{resting}
use fastpysgi.Samples.{client, with_chunked}
use fastpysgi.Common.Numerals.{read}
use fastpysgi.Server.{read_stop, writing}
use fastpysgi.Server.Write.{stream_write, WriteEvent, load_chunk}
use fastpysgi.Server.Write.Chunks.{frame, chunk_sent}
use fastpysgi.Server.Alloc.{Reader}
use fastpysgi.Tls.Clients.{Live}
use fastpysgi.Server.Accept.{AcceptAnswers, connection_cb, BeginsIf, connection_cb-Begins}
use fastpysgi.Server.Options.{root_path, root_path_lem}

abbrev event : WriteEvent
event = record { status_ok = false; now = 5000; uv_write_ok = true; uv_read_ok = true }

chunk_sent_example :
    ((stream_write true (load_chunk (codes "abc") (with_chunked 1 client))).2
      ≡ read_stop ∷ writing (frame (codes "abc")) ∷ [])
    × (read 16 0 (upper_hex 3) ≡ 3)
chunk_sent_example = chunk_sent true 97 (codes "bc") (with_chunked 1 client) refl refl (omega arith)

root_path_lem_example : root_path 1000 (codes "/app") ≡ some (codes "/app")
root_path_lem_example = root_path_lem 1000 (codes "/app")

refuses_slash : root_path 1000 (codes "/app/") ≡ none
unfolding root_path
refuses_slash = refl

abbrev no_buffer : Reader
no_buffer = record {
  rx_status = resting;
  rx_buf = record { data_block = none; size = 0; capacity = 0 };
  parsed_pos = 7;
}

-- uv_accept and OpenSSL do what they are asked for
abbrev all_well : AcceptAnswers
all_well = record {
  status = pos 0;
  accept_rc = pos 0;
  read_ok = true;
  tls = record { ssl_new = true; bio_in_new = true; bio_out_new = true; enc_out_init = true };
}

connection_cb-Begins_example :
    let l : Live = record { ssl = 0; bios = 0; bufs = 0 } in
    BeginsIf 5 65536 true l (connection_cb all_well 5 65536 true l)
connection_cb-Begins_example =
    connection_cb-Begins all_well 5 65536 true (record { ssl = 0; bios = 0; bufs = 0 })
