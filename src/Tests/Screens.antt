-- ===== src/Tests/Screens.antt =====
-- Names of columns, an exported file, a chart and a listing.
use Prim.Native.String.{count}
use mathlib.Core.List.Permᴰ
use settlr.Tests.Pages.{strokes, count-strokes}
use settlr.Prelude.{ap, true, false, ℕ, ℤ, ◌≡◌, refl, [], ◌∷◌, none, some}
use settlr.Keys.{Object, to_camel_case, to_snake_case}
use settlr.Keys.RoundTrip.{rename, to_snake_case-to_camel_case}
use settlr.Keys.{camel_key}
use settlr.Export.{codes, UiTransaction, Formats, headers, cells, csv_content}
use settlr.Export.Csv.{read_csv, read_csv-csv_content}
use settlr.Account.Chart.{Calendar, chart_data}
use settlr.Account.Chart.Days.{by_day, chart_data-by_day}
use settlr.Errors.{ok}
use settlr.Database.{Tables}
use settlr.Account.{page_of}
use settlr.Payment.Listing.{
  ListQuery, Finder, Listing, is_listed, listed, found_rows, list_page, own_ids, list_transactions,
}
use settlr.Payment.Listing.Pages.{
  Rearranges, HaveDistinctTimes, IsComplete, list_transactions-IsComplete,
}
use settlr.Auth.{UserRow}
use settlr.Account.Directory.{Directory, get_weekly_stats, user_accounts}
use settlr.Account.Directory.Weekly.{by_week, get_weekly_stats-by_week}
use settlr.Tests.Payment.{written, tables, bala}

-- An account row with two of its columns.
abbrev row : Object ℕ
row = (codes "user_id", 1) ∷ (codes "created_at", 2) ∷ []

to_snake_case-to_camel_case_example :
    (to_snake_case (to_camel_case row) ≡ row) × (to_camel_case row ≡ rename camel_key row)
to_snake_case-to_camel_case_example =
    to_snake_case-to_camel_case row (refl, (refl, tt)) (refl, (refl, tt))

abbrev formats : Formats
formats = record {
  format_date = λ text. codes "15 Jan 2024, 3:45 pm";
  to_fixed = λ n. codes "0.30";
  to_string = λ n. codes "7";
}

-- A description with a quote, a comma and a line break.
abbrev transaction : UiTransaction
transaction = record {
  id = codes "t1";
  from_account_id = codes "a";
  to_account_id = codes "b";
  from_user_name = some (codes "Anita");
  to_user_name = none;
  amount = 30;
  currency = codes "INR";
  status = codes "completed";
  fraud_score = some 7;
  description = some (34 ∷ 44 ∷ 10 ∷ []);
  created_at = codes "2024-01-15";
}

read_csv-csv_content_example :
    read_csv (csv_content formats (transaction ∷ [])) ≡ headers ∷ cells formats transaction ∷ []
read_csv-csv_content_example = read_csv-csv_content formats (transaction ∷ [])

abbrev calendar : Calendar
calendar = record { now = 100; weekday = λ time. "Thu" }

chart_data-by_day_example :
    chart_data calendar "a" 7 (written "b" 30 ∷ []) ≡ by_day calendar "a" (written "b" 30 ∷ []) 7
chart_data-by_day_example = chart_data-by_day calendar "a" 7 (written "b" 30 ∷ [])

abbrev finder : Finder
finder = record {
  now = 100;
  parse_int = λ text. some (ℤ.pos (count text));
  ilike = λ search text. true;
  arranged = λ page rows. rows;
}

abbrev everything : ListQuery
everything = record {
  limit = none;
  page = none;
  status = some "completed";
  type_of = none;
  search = none;
  period = some "all";
}

abbrev one_payment : Tables
one_payment = record tables { transactions = written "b" 30 ∷ [] }

abbrev found : Listing
found = record {
  transactions = listed one_payment [] (written "b" 30) ∷ [];
  total = 1;
  limit = ℤ.pos 20;
  page = 1;
  total_pages = 1;
}

found_run : list_transactions finder "u" everything one_payment [] ≡ ok found
unfolding list_transactions list_page found_rows is_listed page_of
found_run = refl

rearranged : Rearranges finder
rearranged page rows = Permᴰ.refl rows

distinct_times : HaveDistinctTimes finder one_payment [] (own_ids one_payment "u") everything
unfolding is_listed
distinct_times = (tt, tt)

list_transactions-IsComplete_example : IsComplete strokes finder "u" everything one_payment [] found
list_transactions-IsComplete_example =
    list_transactions-IsComplete strokes finder "u" everything one_payment []
      (λ n. ap (λ k. some (ℤ.pos k)) (count-strokes n)) rearranged distinct_times found found_run

abbrev directory : Directory
directory = record {
  random_uuid = λ n. "uuid";
  now = 100;
  matches = λ query text. true;
  is_uuid = λ query. false;
  text_length = λ query. 5;
}

abbrev bina : UserRow
bina = record {
  id = "v";
  email = "bina@example.com";
  password_hash = "hash";
  phone = none;
  name = some "Bina";
  kyc_status = "pending";
  is_active = true;
  created_at = 0;
  updated_at = 0;
}

abbrev bina_account : Tables
bina_account = record tables { accounts = record bala { user_id = "v" } ∷ [] }

get_weekly_stats-by_week_example :
    get_weekly_stats directory "u" tables
    ≡ by_week directory (user_accounts "u" tables) tables.transactions
get_weekly_stats-by_week_example = get_weekly_stats-by_week directory "u" tables
