-- ===== src/Incidents/Mapping.antt =====
-- services/incident-manager/incident_manager/seed_mapping.py and translations.py: the rows of the file
-- that the incidents are seeded from.
use brasaland_digital.Base.{
  ◌≡◌, refl, lstrip, rstrip, Option, some, none, List, [], ◌∷◌, String, ◌==◌, is_blank, strip,
  if◌then◌else◌, Result, ok, err,
}
use brasaland_digital.Base.Dicts.{Dict, lookup}
use brasaland_digital.Base.Regex.{joined}
use brasaland_digital.Base.Affixes.{prefix}
use brasaland_digital.Incidents.Service.{IncidentSeedInput}

abbrev pub spanish_to_english : Dict String
spanish_to_english =
    (
      "Bajo stock de carbón para parrillas, pedido urgente enviado",
      "Low charcoal stock for grills; urgent order placed",
    )
    ∷ (
      "Carne servida en término incorrecto según pedido",
      "Meat served at the wrong doneness per the order",
    )
    ∷ (
      "Cliente informa que su pedido tardó más de 40 minutos",
      "Customer reports the order took more than 40 minutes",
    )
    ∷ (
      "Cliente insatisfecho con el servicio recibido",
      "Customer dissatisfied with the service received",
    )
    ∷ (
      "Cliente insatisfecho con el tiempo de espera en mesa",
      "Customer dissatisfied with table wait time",
    )
    ∷ ("Cliente reporta alimento frío al momento de servir", "Customer reports food served cold")
    ∷ (
      "Cliente reporta error en la cuenta cobrada", "Customer reports a billing error on the check",
    )
    ∷ ("Desabasto de envases para pedidos para llevar", "Shortage of takeout packaging supplies")
    ∷ ("Empleado llegó tarde al turno de apertura", "Employee arrived late for the opening shift")
    ∷ ("Empleado no siguió protocolo de uniformidad", "Employee did not follow uniform protocol")
    ∷ ("Extractor de humos con funcionamiento deficiente", "Vent hood operating poorly")
    ∷ ("Falla en la parrilla principal de cocina", "Main kitchen grill failure")
    ∷ (
      "Falta de carne de res para cortes del menú principal", "Shortage of beef for main menu cuts",
    )
    ∷ ("Faltante de bebidas importadas en carta", "Imported beverages missing from the menu")
    ∷ ("Guarnición servida sin cocción completa", "Side dish served undercooked")
    ∷ (
      "Incidencia sin categorizar reportada por supervisor",
      "Uncategorized incident reported by supervisor",
    )
    ∷ (
      "Lavaplatos industrial con fuga de agua detectada",
      "Commercial dishwasher water leak detected",
    )
    ∷ (
      "No se recibió el pedido de vegetales frescos del día",
      "Daily fresh vegetable order was not received",
    )
    ∷ ("Porción servida menor a la estándar del menú", "Portion served below menu standard")
    ∷ (
      "Producto vencido detectado durante revisión de inventario",
      "Expired product found during inventory review",
    )
    ∷ (
      "Proveedor de salsas no entregó el pedido semanal",
      "Sauce supplier did not deliver the weekly order",
    )
    ∷ (
      "Queja de cliente sobre comportamiento de mesero", "Customer complaint about server behavior",
    )
    ∷ (
      "Queja por ruido excesivo en el área de mesas",
      "Complaint about excessive noise in the dining area",
    )
    ∷ (
      "Queja por temperatura inadecuada del local",
      "Complaint about inadequate restaurant temperature",
    )
    ∷ (
      "Queja por trato irrespetuoso del personal de sala",
      "Complaint about disrespectful front-of-house staff conduct",
    )
    ∷ ("Reclamación por reserva no encontrada al llegar", "Reservation not found on arrival")
    ∷ (
      "Refrigerador de bebidas no enfría correctamente",
      "Beverage refrigerator not cooling properly",
    )
    ∷ ("Retraso en entrega de insumos de limpieza", "Delayed delivery of cleaning supplies")
    ∷ (
      "Revisión de temperatura completada sin novedad",
      "Temperature review completed with no issues",
    )
    ∷ (
      "Salsa de la casa con sabor diferente al habitual", "House sauce tastes different from usual",
    )
    ∷ (
      "Sistema de música del local apagado sin respuesta",
      "Restaurant music system off with no response",
    )
    ∷ (
      "Solicitud de devolución por pedido incorrecto entregado",
      "Refund request for incorrect order delivered",
    )
    ∷ (
      "Terminal POS con error al procesar pagos con tarjeta",
      "POS terminal error processing card payments",
    )
    ∷ []

-- The columns of a row that are read.
pub record CsvRow : Type 0 where
  pub incident_id : String
  pub description : String
  pub status : String
  pub date : String
  pub category : String
  pub location_id : String

-- A `ValueError`: of a description without a translation, or of a date.
pub data Error : Type 0 where
  untranslated : String → Error
  bad_date : String → Error

-- `_CSV_STATUS_TO_INCIDENT_STATUS.get(status, status)`
unfoldable pub mapped_status : String → String
mapped_status status =
    if status == "ABIERTO"
    then "open"
    else if status == "CERRADO"
    then "resolved"
    else if status == "DESCARTADO"
    then "discarded"
    else status

-- `strptime(date, "%Y-%m-%d")` at midnight in UTC, by its `isoformat`; `none` is the `ValueError`.
module _ (midnight_of : String → Option String) where
  unfoldable pub csv_date_to_iso_midnight_utc : String → Result Error String
  csv_date_to_iso_midnight_utc date_value = elim (midnight_of (strip date_value)) [
    | none ↦ err (bad_date date_value)
    | some iso ↦ ok iso
  ]

  unfoldable pub translate_description : String → Result Error String
  translate_description raw_description =
      let stripped = strip raw_description in
      if is_blank stripped then ok "" else elim (lookup stripped spanish_to_english) [
        | none ↦ err (untranslated stripped)
        | some english ↦ ok english
      ]

  -- The row with its description and its time.
  unfoldable pub mapped_row : CsvRow → String → String → IncidentSeedInput
  mapped_row row description timestamp =
      let incident_id = strip row.incident_id in
      record {
        source_incident_id = incident_id;
        title = joined (incident_id ∷ ": " ∷ prefix 60 description ∷ []);
        description = description;
        category = strip row.category;
        status = mapped_status (strip row.status);
        origin = "customer";
        branch = strip row.location_id;
        created_at = timestamp;
        updated_at = timestamp;
      }

  unfoldable pub map_csv_row : CsvRow → Result Error IncidentSeedInput
  map_csv_row row = elim (translate_description (strip row.description)) [
    | err e ↦ err e
    | ok description ↦ elim (csv_date_to_iso_midnight_utc row.date) [
      | err e ↦ err e
      | ok timestamp ↦ ok (mapped_row row description timestamp)
    ]
  ]

  -- The rows of the file in order; the first one that raises ends the loading.
  unfoldable pub load_mapped_rows : List CsvRow → Result Error (List IncidentSeedInput)
  load_mapped_rows [] = ok []
  load_mapped_rows (row ∷ rest) = elim (map_csv_row row) [
    | err e ↦ err e
    | ok first ↦ elim (load_mapped_rows rest) [ err e ↦ err e | ok others ↦ ok (first ∷ others) ]
  ]

-- A row with blanks around its values.
abbrev late_row : CsvRow
late_row = record {
  incident_id = " I-7 ";
  description = "Queja por temperatura inadecuada del local ";
  status = "ABIERTO";
  date = "2026-03-01";
  category = "QUEJA_CLIENTE";
  location_id = "COL-01";
}

late_row_mapped :
    map_csv_row (λ date. some "midnight") late_row
    ≡ ok (record {
      source_incident_id = "I-7";
      title = "I-7: Complaint about inadequate restaurant temperature";
      description = "Complaint about inadequate restaurant temperature";
      category = "QUEJA_CLIENTE";
      status = "open";
      origin = "customer";
      branch = "COL-01";
      created_at = "midnight";
      updated_at = "midnight";
    })
unfolding map_csv_row translate_description csv_date_to_iso_midnight_utc mapped_row mapped_status
    strip lstrip rstrip prefix joined
late_row_mapped = refl
