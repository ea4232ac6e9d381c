-- ===== src/Machines/Tests.antt =====
-- A machine that was bought in May 2025, registered in June.
use coffix.Prelude.{
  ◌≡◌, ◌↔◌, refl, Option, none, some, Text, codes, text_eq, is_digit, trim, if◌then◌else◌,
}
use coffix.Machines.{
  MachineRegisterForm, text_gtb, validate_machine_register_form, MachineCreate, machine_of,
  to_machine_create,
}
use coffix.Machines.Laws.{IsRegistrable, to_machine_create_iff}

abbrev one_day : Text → Option Text
one_day value = if text_eq value (codes "2025-05-06") then some value else none

abbrev bought : MachineRegisterForm
bought = record {
  machine_model_id = codes "m";
  media_id = none;
  purchase_date = codes "2025-05-06 ";
  serial_number = codes " 12A";
}

abbrev sent : MachineCreate
sent = record {
  created_model_id = codes "m";
  created_media_id = none;
  created_purchase_date = some (codes "2025-05-06");
  created_serial_number = codes "12A";
}

to_machine_create_iff_example :
    (to_machine_create one_day (codes "2025-06-01") bought ≡ some sent)
    ↔ (IsRegistrable one_day (codes "2025-06-01") bought × (sent ≡ machine_of bought))
unfolding is_digit
to_machine_create_iff_example = to_machine_create_iff one_day (codes "2025-06-01") bought sent refl

converts_bought : to_machine_create one_day (codes "2025-06-01") bought ≡ some sent
unfolding to_machine_create validate_machine_register_form trim text_eq text_gtb is_digit
converts_bought = refl
