-- ===== src/Parameter/Types.antt =====
-- lib/constants/types.js: the numbers of the column types.
use node_mysql.Prelude.{ℕ}

abbrev pub decimal : ℕ
decimal = 0x00

abbrev pub tiny : ℕ
tiny = 0x01

abbrev pub short : ℕ
short = 0x02

abbrev pub long : ℕ
long = 0x03

abbrev pub float : ℕ
float = 0x04

abbrev pub double : ℕ
double = 0x05

abbrev pub null : ℕ
null = 0x06

abbrev pub timestamp : ℕ
timestamp = 0x07

abbrev pub longlong : ℕ
longlong = 0x08

abbrev pub int24 : ℕ
int24 = 0x09

abbrev pub date : ℕ
date = 0x0a

abbrev pub time : ℕ
time = 0x0b

abbrev pub datetime : ℕ
datetime = 0x0c

abbrev pub year : ℕ
year = 0x0d

abbrev pub newdate : ℕ
newdate = 0x0e

abbrev pub varchar : ℕ
varchar = 0x0f

abbrev pub bit : ℕ
bit = 0x10

abbrev pub vector : ℕ
vector = 0xf2

abbrev pub json : ℕ
json = 0xf5

abbrev pub newdecimal : ℕ
newdecimal = 0xf6

abbrev pub enum : ℕ
enum = 0xf7

abbrev pub set : ℕ
set = 0xf8

abbrev pub tiny_blob : ℕ
tiny_blob = 0xf9

abbrev pub medium_blob : ℕ
medium_blob = 0xfa

abbrev pub long_blob : ℕ
long_blob = 0xfb

abbrev pub blob : ℕ
blob = 0xfc

abbrev pub var_string : ℕ
var_string = 0xfd

abbrev pub string : ℕ
string = 0xfe

abbrev pub geometry : ℕ
geometry = 0xff
