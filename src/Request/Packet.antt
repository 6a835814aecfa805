-- ===== src/Request/Packet.antt =====
-- request/request_process.h: the packet types and the packets that the server sends.
use didactic_pancake_server.Prelude.{
  ℕ, Bytes, lit, crlf, to_string, [], ◌∷◌, ◌++◌, length, take, take-append, ◌≡◌,
}

-- enum PACKET_TYPE
pub data PacketType : Type 0 where
  hbt lgn rgt lgt scu adf def rfr rcn gfi afi dfi sma rma rdy ign sav rav soc roc aoc doc eoc :
      PacketType

-- requestProcess::ReqToString
unfoldable pub req_to_string : PacketType → Bytes
req_to_string hbt = lit "HBT"
req_to_string lgn = lit "LGN"
req_to_string rgt = lit "RGT"
req_to_string lgt = lit "LGT"
req_to_string scu = lit "SCU"
req_to_string adf = lit "ADF"
req_to_string def = lit "DEF"
req_to_string rfr = lit "RFR"
req_to_string rcn = lit "RCN"
req_to_string gfi = lit "GFI"
req_to_string afi = lit "AFI"
req_to_string dfi = lit "DFI"
req_to_string sma = lit "SMA"
req_to_string rma = lit "RMA"
req_to_string rdy = lit "RDY"
req_to_string sav = lit "SAV"
req_to_string rav = lit "RAV"
req_to_string soc = lit "SOC"
req_to_string roc = lit "ROC"
req_to_string aoc = lit "AOC"
req_to_string doc = lit "DOC"
req_to_string eoc = lit "EOC"
req_to_string ign = lit "ERR"

-- The value of the enum, as to_string(RFR) prints it.
unfoldable pub code_of : PacketType → ℕ
code_of hbt = 0
code_of lgn = 1
code_of rgt = 2
code_of lgt = 3
code_of scu = 4
code_of adf = 5
code_of def = 6
code_of rfr = 7
code_of rcn = 8
code_of gfi = 9
code_of afi = 10
code_of dfi = 11
code_of sma = 12
code_of rma = 13
code_of rdy = 14
code_of ign = 15
code_of sav = 16
code_of rav = 17
code_of soc = 18
code_of roc = 19
code_of aoc = 20
code_of doc = 21
code_of eoc = 22

-- W_DataPacket. `content` holds the `m_content_len` bytes that make_format copies.
pub record Packet : Type 0 where
  pub category : PacketType
  pub content : Bytes
  pub byte_have_write : ℕ

-- W_DataPacket(cat, conlen, con): the first `conlen` bytes of a C string, its final '\0' included.
unfoldable pub w_data_packet : PacketType → ℕ → Bytes → Packet
w_data_packet cat conlen con = record {
  category = cat;
  content = take conlen (con ++ (0 ∷ []));
  byte_have_write = 0;
}

-- A packet whose length is that of its text carries exactly that text.
pub w_data_packet_exact :
    (cat : PacketType) (conlen : ℕ) (con : Bytes)
    → conlen ≡ length con
    → w_data_packet cat conlen con ≡ record { category = cat; content = con; byte_have_write = 0 }
unfolding w_data_packet
w_data_packet_exact cat conlen con e = rw (e, take-append)

-- W_DataPacket::make_format: type line, length header, empty line, content.
unfoldable pub make_format : PacketType → Bytes → Bytes
make_format cat content =
    req_to_string cat
    ++ (crlf
        ++ (lit "Content-Length: " ++ (to_string (length content) ++ (crlf ++ (crlf ++ content)))))
